-- ===== src/Prelude/Rounding.antt =====
-- Python's `round` of a quotient of numbers: to the nearest, and a tie to the even neighbour.
use rtc_asr.Prelude.{ℕ, ◌+◌, ◌*◌, ◌/◌, ◌%◌, ◌≤◌, ◌<◌, ◌≡◌, ltb, ◌==◌, if◌then◌else◌, arith, ◌⊎◌, ap}
use native.Mathlib.Decide.{dec_lt}
use native.Mathlib.Nat.{div-add-mod'}

unfoldable pub round_half_even : ℕ → ℕ → ℕ
round_half_even n d =
    let q = n / d in
    let twice = 2 * (n % d) in
    if ltb twice d then q else if ltb d twice then q + 1 else if q % 2 == 0 then q else q + 1

round_cases :
    (n d : ℕ)
    → ((round_half_even n d ≡ n / d) × (2 * (n % d) ≤ d))
      ⊎ ((round_half_even n d ≡ n / d + 1) × (d ≤ 2 * (n % d)))
unfolding round_half_even
round_cases n d = ground arith

-- The result is within a half of the quotient.
pub round_half_even_bounds :
    (n d : ℕ)
    → 0 < d
    → (2 * (round_half_even n d * d) ≤ 2 * n + d) × (2 * n ≤ 2 * (round_half_even n d * d) + d)
round_half_even_bounds n d h = grind (arith, round_cases n d)

same_quotient :
    (m n d : ℕ) → m / d ≡ n / d → m % d ≤ n % d → round_half_even m d ≤ round_half_even n d
unfolding round_half_even
same_quotient m n d e h = ground arith

div_mono : (m n d : ℕ) → 0 < d → m ≤ n → m / d ≤ n / d
div_mono m n d h le = grind (arith, div-add-mod' m d, div-add-mod' n d)

-- A larger number has no smaller rounded quotient.
pub round_half_even_mono : (m n d : ℕ) → 0 < d → m ≤ n → round_half_even m d ≤ round_half_even n d
round_half_even_mono m n d h le = elim (dec_lt (m / d) (n / d)) [
  | yes below ↦ omega (arith, round_cases m d, round_cases n d)
  | no same ↦
      let e : m / d ≡ n / d = omega (arith, div_mono m n d h le) in
      same_quotient m n d e
        (omega (arith, div-add-mod' m d, div-add-mod' n d, ap (λ (q : ℕ). q * d) e))
]
