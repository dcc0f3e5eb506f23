-- ===== src/Config/Keys/Rows.antt =====
-- `configRows` and `diffKeys` of internal/app/config_ops.go.
use reptile.Prelude.{
  ltb, ℕ, ◌-◌, ◌++◌, length, replicate, Bool, true, false, not, List, [], ◌∷◌, if◌then◌else◌,
}
use reptile.Text.Defs.{text_ltb, Text, codes, eq}
use reptile.Text.Split.{join}
use reptile.Text.Number.{itoa}
use reptile.Config.{Config}

-- `configRow`
pub record Row : Type 0 where
  pub key : Text
  pub value : Text

-- `strconv.FormatBool`
unfoldable pub bool_text : Bool → Text
bool_text b = if b then codes "true" else codes "false"

-- `sort.Slice` by the keys, which are distinct.
unfoldable pub insert_row : Row → List Row → List Row
unfolding text_ltb
insert_row r [] = r ∷ []
insert_row r (q ∷ qs) = elim (text_ltb q.key r.key) [
  | true ↦ q ∷ insert_row r qs
  | false ↦ r ∷ q ∷ qs
]

unfoldable pub sort_rows : List Row → List Row
unfolding insert_row
sort_rows [] = []
sort_rows (r ∷ rs) = insert_row r (sort_rows rs)

abbrev pub row : Text → Text → Row
row k v = record { key = k; value = v }

unfoldable pub config_rows : Config → List Row
unfolding sort_rows bool_text
config_rows c = sort_rows (
    row (codes "interface") (c.interface)
    ∷ row (codes "poll_interval") (c.poll_interval)
    ∷ row (codes "max_handshake_age") (c.max_handshake_age)
    ∷ row (codes "down_cycles_to_kill") (itoa c.down_cycles_to_kill)
    ∷ row (codes "kill_grace") (c.kill_grace)
    ∷ row (codes "heartbeat_interval") (c.heartbeat_interval)
    ∷ row (codes "ping_target") (c.ping_target)
    ∷ row (codes "verify_egress") (bool_text c.verify_egress)
    ∷ row (codes "expected_country") (c.expected_country)
    ∷ row (codes "expected_ip") (c.expected_ip)
    ∷ row (codes "probe_url") (c.probe_url)
    ∷ row (codes "country_pattern") (c.country_pattern)
    ∷ row (codes "ip_pattern") (c.ip_pattern)
    ∷ row (codes "probe_interval") (c.probe_interval)
    ∷ row (codes "probe_timeout") (c.probe_timeout)
    ∷ row (codes "dnsbl_zones") (join (codes ",") c.dnsbl_zones)
    ∷ row (codes "targets") (join (codes ",") c.targets)
    ∷ row (codes "wg_conf") (c.wg_conf)
    ∷ row (codes "extra_accept") (join (codes ",") c.extra_accept)
    ∷ row (codes "socket_path") (c.socket_path)
    ∷ row (codes "log_file") (c.log_file)
    ∷ [])

-- The loop of `diffKeys`, over rows that have the same keys in the same places.
unfoldable pub diff_rows : List Row → List Row → List Text
diff_rows (o ∷ os) (n ∷ ns) =
    let rest = diff_rows os ns in if not (eq o.value n.value) then o.key ∷ rest else rest
diff_rows _ _ = []

unfoldable pub diff_keys : Config → Config → List Text
diff_keys old new = diff_rows (config_rows old) (config_rows new)

-- The width of the widest key.
unfoldable pub key_width : ℕ → List Row → ℕ
key_width width [] = width
key_width width (r ∷ rs) = key_width (if ltb width (length r.key) then length r.key else width) rs

unfoldable pub table_rows : ℕ → List Row → Text
table_rows width [] = []
table_rows width (r ∷ rs) =
    r.key
    ++ (replicate (width - length r.key) b' '
        ++ (codes "  " ++ (r.value ++ (b'\n' ∷ table_rows width rs))))

-- `RenderConfigTable`, the text that is written
unfoldable pub render_config_table : Config → Text
unfolding key_width table_rows
render_config_table c = let rows = config_rows c in table_rows (key_width 0 rows) rows
