-- ===== src/Commissions/Allocation/Floor.antt =====
-- The floor division, and how far the floors of all shares fall short of the adjustment.
use native.Mathlib.Nat.{div-add-mod', mod-lt, le_of_mul-le-mul_right, lt_of_mul-lt-mul_right}
use kora_os.Common.{
  ℕ, zero, suc, ◌+◌, ◌*◌, ◌/◌, ◌%◌, ◌≤◌, ◌<◌, ◌≡◌, refl, List, [], ◌∷◌, map, length, arith,
  if◌then◌else◌, ◌==◌, not, true, false, ◌&&◌,
}
use kora_os.Common.Int.{
  ℤ, pos, negsuc, pos_part, neg_part, ◌-ℤ◌, ◌*ℤ◌, *ℤ_parts, +ℤ_parts, -ℤ_parts,
}
use kora_os.Commissions.Allocation.{
  AllocationLine, Share, big_int_floor_div, share_of, sum_floors, gross_total, negative, is_zero,
  is_negative, differ,
}

abbrev IsFloor : ℤ → ℕ → ℕ → Type 0
IsFloor z n b =
    (pos_part z * b + suc n ≤ 0 + neg_part z * b)
    × (0 + neg_part z * b < pos_part z * b + suc n + b)

minus_one : (q : ℕ) → negsuc q -ℤ pos 1 ≡ negsuc (suc q)
unfolding ◌-ℤ◌
minus_one q = ground arith

minus_one_zero : pos 0 -ℤ pos 1 ≡ negsuc 0
unfolding ◌-ℤ◌
minus_one_zero = refl

inexact : (r : ℕ) → (not (suc r == 0) && true) ≡ true
inexact r = ground arith

-- Below zero, from the truncated quotient and remainder of the magnitudes.
IsFloor-below :
    (q r n b : ℕ)
    → q * b + r ≡ suc n
    → r < b
    → IsFloor
        (if not (is_zero (negative r)) && differ (is_negative (negative r)) false
          then negative q -ℤ pos 1
          else negative q)
        n
        b
IsFloor-below zero zero n b e l = absurd (omega arith)
IsFloor-below zero (suc r) n b e l = rw (inexact r, minus_one_zero) (omega arith, omega arith)
IsFloor-below (suc q) zero n b e l = (ground arith, ground arith)
IsFloor-below (suc q) (suc r) n b e l = rw (inexact r, minus_one q) (omega arith, omega arith)

-- For a positive divisor the result is the floor: its product with the divisor is at most the
-- dividend, by less than the divisor. The dividend may be negative.
pub big_int_floor_div_floor :
    (a : ℤ) (b : ℕ)
    → 0 < b
    → let q = big_int_floor_div a (pos b) in
      (pos_part q * b + neg_part a ≤ pos_part a + neg_part q * b)
      × (pos_part a + neg_part q * b < pos_part q * b + neg_part a + b)
unfolding big_int_floor_div
big_int_floor_div_floor (pos n) b h =
    let e = div-add-mod' n b in let l = mod-lt n h in (ground arith, ground arith)
big_int_floor_div_floor (negsuc n) zero h = absurd (omega arith)
big_int_floor_div_floor (negsuc n) (suc b) h =
    let e = div-add-mod' (suc n) (suc b) in
    let l = mod-lt (suc n) h in IsFloor-below (suc n / suc b) (suc n % suc b) n (suc b) e l

-- The sums of the two parts of the floors.
abbrev floors_above : List Share → ℕ
floors_above [] = 0
floors_above (s ∷ ss) = pos_part s.floor_share + floors_above ss

abbrev floors_below : List Share → ℕ
floors_below [] = 0
floors_below (s ∷ ss) = neg_part s.floor_share + floors_below ss

sum_floors_parts :
    (ss : List Share)
    → pos_part (sum_floors ss) + floors_below ss ≡ neg_part (sum_floors ss) + floors_above ss
unfolding sum_floors
sum_floors_parts [] = refl
sum_floors_parts (s ∷ ss) =
    omega (arith, +ℤ_parts s.floor_share (sum_floors ss), sum_floors_parts ss)

share_floor :
    (adj : ℤ) (total : ℕ) (line : AllocationLine)
    → 0 < total
    → let f = (share_of adj (pos total) line).floor_share in
      let g = line.gross_amount_minor in
      (pos_part f * total + g * neg_part adj ≤ g * pos_part adj + neg_part f * total)
      × (g * pos_part adj + neg_part f * total < pos_part f * total + g * neg_part adj + total)
unfolding share_of
share_floor adj total line h =
    let g = line.gross_amount_minor in
    let fl = big_int_floor_div_floor (pos g *ℤ adj) total h in
    let m = *ℤ_parts (pos g) adj in (omega arith, omega arith)

floors_between :
    (adj : ℤ) (total : ℕ) (lines : List AllocationLine)
    → 0 < total
    → let ss = map (share_of adj (pos total)) lines in
      (floors_above ss * total + gross_total lines * neg_part adj
        ≤ gross_total lines * pos_part adj + floors_below ss * total)
      × (gross_total lines * pos_part adj + floors_below ss * total + length lines
          ≤ floors_above ss * total + gross_total lines * neg_part adj + length lines * total)
floors_between adj total [] h = (omega arith, omega arith)
floors_between adj total (line ∷ lines) h =
    let one = share_floor adj total line h in
    let more = floors_between adj total lines h in (omega arith, omega arith)

nonneg :
    (z : ℤ) (n : ℕ)
    → neg_part z ≤ pos_part z
    → pos_part z < n + neg_part z
    → (units : ℕ) × (z ≡ pos units) × (units < n)
nonneg (pos k) n h l = (k, refl, omega arith)
nonneg (negsuc k) n h l = absurd (omega arith)

-- The floors add up to at most the adjustment, and fall short of it by fewer units than there are
-- lines.
pub floors_short :
    (adj : ℤ) (lines : List AllocationLine)
    → 0 < gross_total lines
    → (units : ℕ) × (adj -ℤ sum_floors (map (share_of adj (pos (gross_total lines))) lines)
        ≡ pos units)
      × (units < length lines)
floors_short adj [] h = absurd (omega arith)
floors_short adj (line ∷ lines) h =
    let all = line ∷ lines in
    let total = gross_total all in
    let ss = map (share_of adj (pos total)) all in
    let between = floors_between adj total all h in
    let parts = sum_floors_parts ss in
    let diff = -ℤ_parts adj (sum_floors ss) in
    let low : floors_above ss + neg_part adj ≤ pos_part adj + floors_below ss =
      le_of_mul-le-mul_right {k = total} (omega arith) h in
    let high : suc (pos_part adj + floors_below ss) ≤ floors_above ss + neg_part adj + length all =
      lt_of_mul-lt-mul_right total (omega arith) in
    nonneg (adj -ℤ sum_floors ss) (length all) (omega arith) (omega arith)
