-- ===== src/Commissions/Calculation/Rounding.antt =====
-- commission-calculation.util.ts and commission-adjustment-calculation.util.ts: rounding, and
-- bounds of commissions and refunds.
use native.Mathlib.Nat.{
  div-mul-le_self, lt-div-mul-add, div-lt_iff_lt-mul, mul-le-mul_left, div-eq_of_lt-le,
}
use kora_os.Common.{
  ◌⊎◌, Outcome, ℕ, zero, suc, ◌+◌, ◌-◌, ◌*◌, ◌/◌, ◌≤◌, ◌<◌, ◌≡◌, refl, some, ok, leb, List, [], ◌∷◌,
  arith, ◌>>=◌, min, Bool-cases, inl, inr,
}
use kora_os.Common.Int.{pos}
use kora_os.Commissions.Calculation.{
  percentage, CommissionRuleForCalculation, round_half_up_division, calculate_commission_amount,
  calculate_percentage_adjustment_basis, calculate_fixed_adjustment_amount,
  basis_points_denominator,
}

-- The quotient is the integer nearest to the fraction, the upper of the two at a tie: its distance
-- below is at most half a unit, and above less than half a unit. It exists for every positive
-- denominator.
pub round_half_up_division_nearest :
    (n d : ℕ)
    → 0 < d
    → (q : ℕ) × (round_half_up_division (pos n) (pos d) ≡ ok q)
      × (2 * (q * d) ≤ 2 * n + d)
      × (2 * n < 2 * (q * d) + d)
unfolding round_half_up_division
round_half_up_division_nearest n zero h = absurd (omega arith)
round_half_up_division_nearest n (suc d) h =
    let q = (2 * n + suc d) / (2 * suc d) in
    let low = div-mul-le_self (2 * n + suc d) (2 * suc d) in
    let high = lt-div-mul-add {a = 2 * n + suc d} {b = 2 * suc d} (omega arith) in
    let twice : q * (2 * suc d) ≡ 2 * (q * suc d) = grind arith in
    (q, refl, omega (arith, twice), omega (arith, twice))

-- A commission by percentage with a rate of at most 10000 basis points exists for every basis and
-- never exceeds it.
pub percentage_commission-le-basis :
    (rule : CommissionRuleForCalculation) (basis rate : ℕ)
    → rule.type ≡ percentage
    → rule.rate_basis_points ≡ some rate
    → rate ≤ basis_points_denominator
    → (amount : ℕ) × (calculate_commission_amount (some rule) (pos basis) ≡ ok (some amount))
      × (amount ≤ basis)
unfolding calculate_commission_amount
percentage_commission-le-basis rule basis rate t r h =
    let q = (2 * (basis * rate) + 10000) / (2 * 10000) in
    let bounded : basis * rate ≤ basis * 10000 = grind arith in
    (q, rw (t, r, calculate_commission_amount) refl, omega arith)

-- The corrections of one accrual in turn, each with what the earlier ones took back; the result is
-- the total that is taken back.
pub fixed_adjustments : ℕ → ℕ → List ℕ → ℕ → Outcome ℕ
fixed_adjustments original line [] already = ok already
fixed_adjustments original line (requested ∷ rest) already =
    calculate_fixed_adjustment_amount original already requested line >>= λ amount.
    fixed_adjustments original line rest (already + amount)

-- At least one request asks for the whole line.
abbrev pub AsksAll : ℕ → List ℕ → Type 0
AsksAll line [] = ⊥
AsksAll line (requested ∷ rest) = (line ≤ requested) ⊎ AsksAll line rest

fixed_adjustment_cases :
    (original already requested line : ℕ)
    → already ≤ original
    → (amount : ℕ) × (calculate_fixed_adjustment_amount original already requested line ≡ ok amount)
      × (already + amount ≤ original)
      × (line ≤ requested → already + amount ≡ original)
unfolding calculate_fixed_adjustment_amount
fixed_adjustment_cases original already requested zero h =
    (original - already, refl, omega arith, λ _. omega arith)
fixed_adjustment_cases original already requested (suc line) h =
    elim (Bool-cases (leb (suc line) requested)) [
      | inl e ↦ (original - already, ground arith, omega arith, λ _. omega arith)
      | inr e ↦ (
        min ((2 * (original * requested) + suc line) / (2 * suc line)) (original - already),
        ground arith,
        omega arith,
        λ full. absurd (ground arith),
      )
    ]

-- However a fixed commission is taken back in parts, starting from at most the whole of it, the
-- corrections are all computed, their total never exceeds the commission, and it is the whole
-- commission once one of them covers the line.
pub fixed_adjustments_bounded :
    (original line : ℕ) (requests : List ℕ) (already : ℕ)
    → already ≤ original
    → (total : ℕ) × (fixed_adjustments original line requests already ≡ ok total)
      × (already ≤ total)
      × (total ≤ original)
      × (AsksAll line requests → total ≡ original)
unfolding fixed_adjustments
fixed_adjustments_bounded original line [] already h =
    (already, refl, omega arith, h, λ none_asked. absurd none_asked)
fixed_adjustments_bounded original line (requested ∷ rest) already h =
    let (amount, e, le, full) = fixed_adjustment_cases original already requested line h in
    let (total, e', ge, le', full') =
      fixed_adjustments_bounded original line rest (already + amount) le in
    (total, rw e e', omega arith, le', whole amount total full full' ge le')
  where
    whole :
        (amount total : ℕ)
        → (line ≤ requested → already + amount ≡ original)
        → (AsksAll line rest → total ≡ original)
        → already + amount ≤ total
        → total ≤ original
        → AsksAll line (requested ∷ rest)
        → total ≡ original
    whole amount total full full' ge le' (inl asked) = omega (arith, full asked)
    whole amount total full full' ge le' (inr later) = full' later

-- A refund of at most the line takes back a basis that exists and is at most the original basis, and
-- is all of it when the refund is the whole of a positive line.
pub percentage_adjustment_basis-le :
    (basis requested line : ℕ)
    → requested ≤ line
    → (amount : ℕ) × (calculate_percentage_adjustment_basis basis requested line ≡ ok amount)
      × (amount ≤ basis)
      × (requested ≡ line → 0 < line → amount ≡ basis)
unfolding calculate_percentage_adjustment_basis
percentage_adjustment_basis-le basis requested zero h =
    (0, refl, omega arith, λ _ pos_line. absurd (omega arith))
percentage_adjustment_basis-le basis requested (suc line) h =
    let bounded = mul-le-mul_left basis h in
    let twice : suc basis * (2 * suc line) ≡ 2 * (basis * suc line) + 2 * suc line = grind arith in
    let under : (2 * (basis * requested) + suc line) / (2 * suc line) < suc basis =
      (div-lt_iff_lt-mul {k = 2 * suc line} {x = 2 * (basis * requested) + suc line} {y = suc basis}
          (omega arith)).1
        (omega (arith, twice)) in
    (
      (2 * (basis * requested) + suc line) / (2 * suc line),
      ground arith,
      omega arith,
      λ same _. exact same,
    )
  where
    exact : requested ≡ suc line → (2 * (basis * requested) + suc line) / (2 * suc line) ≡ basis
    exact same = rw same (div-eq_of_lt-le (2 * suc line) (grind arith) (grind arith))
