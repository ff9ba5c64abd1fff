-- ===== src/Limiter/Window.antt =====
-- A counter with a fixed window, as the specification of the rate limiter: the requests that it admits,
-- how many of them, and when it starts afresh.
use medods_dvortsov.Prelude.{
  ℕ, suc, ◌+◌, ◌-◌, ◌*◌, ◌≤◌, ◌<◌, ◌≡◌, Bool, true, false, Option, none, some, List, [], ◌∷◌, All,
  length, ltb, leb, arith, if◌then◌else◌,
}
use medods_dvortsov.Models.{Time}

-- The requests counted in the window, and its end; none before the first.
abbrev pub Counter : Type 0
Counter = Option (ℕ × Time)

abbrev pub counted : Time → Counter → ℕ
counted now none = 0
counted now (some (n, end)) = if ltb now end then n else 0

-- The window that a request opens or is counted in.
abbrev pub counted_in : ℕ → Time → Counter → Counter
counted_in seconds now none = some (1, now + seconds * 1000)
counted_in seconds now (some (n, end)) =
    if ltb now end then some (suc n, end) else some (1, now + seconds * 1000)

unfoldable pub window_step : ℕ → ℕ → Time → Counter → Bool × Counter
window_step limit seconds now c =
    if leb limit (counted now c) then (false, c) else (true, counted_in seconds now c)

unfoldable pub window_run : ℕ → ℕ → List Time → Counter → List Bool
window_run limit seconds [] c = []
window_run limit seconds (now ∷ times) c =
    let (b, c') = window_step limit seconds now c in b ∷ window_run limit seconds times c'

abbrev pub admitted_of : List Bool → ℕ
admitted_of [] = 0
admitted_of (true ∷ bs) = suc (admitted_of bs)
admitted_of (false ∷ bs) = admitted_of bs

abbrev pub min : ℕ → ℕ → ℕ
min a b = if leb a b then a else b

-- Within a window that has counted `n`, the rest of the limit is admitted.
pub window_run_within :
    (limit seconds n : ℕ) (end : Time) (times : List Time)
    → n ≤ limit
    → All (λ t. t < end) times
    → admitted_of (window_run limit seconds times (some (n, end))) ≡ min (length times) (limit - n)
unfolding window_run window_step
window_run_within limit seconds n end [] room inside = ground arith
window_run_within limit seconds n end (t ∷ times) room (before, inside) = ground (
  arith,
  window_run_within limit seconds n end times room inside,
  window_run_within limit seconds (suc n) end times,
)
