-- ===== src/Killer/Workers/Live.antt =====
-- The workers of `signalProcesses` in internal/app/killer.go that are in their loops.
use reptile.Prelude.{ℕ, zero, suc, ◌+◌, ◌<◌, ◌≡◌, refl, List, [], ◌∷◌, ◌++◌, replicate, arith}
use mathlib.Core.List.{Memᴰ}
use reptile.Killer.Workers.{Worker, idle, busy, gone}

-- How many workers have not left their loop.
unfoldable pub live : List Worker → ℕ
live [] = 0
live (gone ∷ ws) = live ws
live (idle ∷ ws) = 1 + live ws
live (busy _ ∷ ws) = 1 + live ws

pub live-append : (xs ys : List Worker) → live (xs ++ ys) ≡ live xs + live ys
unfolding live
live-append [] ys = omega arith
live-append (gone ∷ xs) ys = live-append xs ys
live-append (idle ∷ xs) ys = omega (arith, live-append xs ys)
live-append (busy i ∷ xs) ys = omega (arith, live-append xs ys)

pub busy-live : (ws : List Worker) {i : ℕ} → Memᴰ (busy i) ws → 0 < live ws
unfolding live
busy-live [] m = elim m [ ]
busy-live (gone ∷ ws) (Memᴰ.head e) = absurd (ground (arith, e))
busy-live (gone ∷ ws) (Memᴰ.tail m) = busy-live ws m
busy-live (idle ∷ ws) m = omega arith
busy-live (busy j ∷ ws) m = omega arith

pub live-start : (k : ℕ) → live (replicate k idle) ≡ k
unfolding live
live-start zero = refl
live-start (suc k) = omega (arith, live-start k)

pub start_idle : (k : ℕ) {w : Worker} → Memᴰ w (replicate k idle) → w ≡ idle
start_idle zero m = elim m [ ]
start_idle (suc k) (Memᴰ.head e) = e
start_idle (suc k) (Memᴰ.tail m) = start_idle k m

pub busy_injective : {a b : ℕ} → busy a ≡ busy b → a ≡ b
busy_injective e = ground (arith, e)
