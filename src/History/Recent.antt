-- ===== src/History/Recent.antt =====
-- `ReadRecentEvents`: the last entries of a log, through a ring of fixed size.
pub mod Last
use Prim.Native.Nat.{min}
use reptile.Prelude.{
  ℕ, zero, suc, ◌+◌, ◌%◌, ◌||◌, Option, none, some, List, [], ◌∷◌, set, get_or, replicate, ltb,
  ◌==◌, if◌then◌else◌, ℤ, pos, ltb_ℤ, pos_part,
}
use reptile.Text.Defs.{Text}
use reptile.Library.{Library}
use reptile.Result.{Result, ok, err}
use reptile.History.{Entry, zero_entry, parse_event}

abbrev pub max_history_entries : ℕ
max_history_entries = 100_000

-- What the scanner delivers: the lines up to an error of the reader, or of a line that is longer
-- than its buffer.
pub record Scan : Type 0 where
  pub lines : List Text
  pub error : Option Text

pub data HistoryError : Type 0 where
  count_range : HistoryError
  read_history : Text → HistoryError

pub record Ring : Type 0 where
  pub cells : List Entry
  pub seen : ℕ

-- `ring[seen%n] = entry; seen++`
pub push : ℕ → Entry → Ring → Ring
push n e r = record { cells = set r.cells (r.seen % n) e; seen = r.seen + 1 }

-- An entry below the level, or a line that is no event, is skipped.
pub offer : ℕ → ℕ → Option Entry → Ring → Ring
offer min n none r = r
offer min n (some e) r = if ltb e.rank min then r else push n e r

pub scan_lines : Library → ℕ → ℕ → List Text → Ring → Ring
scan_lines lib min n [] r = r
scan_lines lib min n (l ∷ ls) r = scan_lines lib min n ls (offer min n (parse_event lib l) r)

-- `out[i] = ring[(start+i)%n]` for the `k` values from `i` on
pub copy_out : ℕ → Ring → ℕ → ℕ → ℕ → List Entry
copy_out n r start zero i = []
copy_out n r start (suc k) i =
    get_or r.cells ((start + i) % n) zero_entry ∷ copy_out n r start k (i + 1)

pub unroll : ℕ → Ring → List Entry
unroll n r = copy_out n r (if ltb n r.seen then r.seen % n else 0) (min r.seen n) 0

pub read_scan : Library → Scan → ℕ → ℕ → Result HistoryError (List Entry)
read_scan lib s min n =
    let r = scan_lines lib min n s.lines (record { cells = replicate n zero_entry; seen = 0 }) in
    elim s.error [ none ↦ ok (unroll n r) | some e ↦ err (read_history e) ]

unfoldable pub read_recent_events : Library → Scan → ℕ → ℤ → Result HistoryError (List Entry)
read_recent_events lib s min n =
    if ltb_ℤ n (pos 0) || ltb_ℤ (pos max_history_entries) n
    then err count_range
    else if pos_part n == 0
    then ok []
    else read_scan lib s min (pos_part n)
