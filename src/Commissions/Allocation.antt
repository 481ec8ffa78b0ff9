-- ===== src/Commissions/Allocation.antt =====
-- commission-adjustment-allocation.util.ts. A `Map` is a function from line identifiers; amounts and
-- big integers are exact.
pub mod Floor
pub mod Totals
pub mod Exact
use kora_os.Common.{
  ℕ, zero, suc, ◌+◌, ◌*◌, ◌/◌, ◌%◌, Bool, true, false, not, ◌&&◌, ◌||◌, Option, none, some, List,
  [], ◌∷◌, map, sum, leb, ltb, ◌==◌, if◌then◌else◌, Outcome, ok, throws, internal, ◌>>=◌,
}
use kora_os.Common.Int.{ℤ, pos, negsuc, pos_part, neg_part, ◌+ℤ◌, ◌-ℤ◌, ◌*ℤ◌, ltb_ℤ, leb_ℤ}

pub record AllocationLine : Type 0 where
  pub line_id : ℕ
  pub gross_amount_minor : ℕ
  pub display_order : ℕ

abbrev pub AmountMap : Type 0
AmountMap = ℕ → Option ℤ

abbrev pub empty_map : AmountMap
empty_map _ = none

abbrev pub put : AmountMap → ℕ → ℤ → AmountMap
put m k v = λ j. if k == j then some v else m j

-- Division and remainder of JavaScript's big integers, which truncate towards zero.
abbrev pub is_negative : ℤ → Bool
is_negative (pos n) = false
is_negative (negsuc n) = true

abbrev pub magnitude : ℤ → ℕ
magnitude (pos n) = n
magnitude (negsuc n) = suc n

abbrev pub negative : ℕ → ℤ
negative zero = pos 0
negative (suc n) = negsuc n

abbrev pub signed : Bool → ℕ → ℤ
signed true n = negative n
signed false n = pos n

abbrev pub differ : Bool → Bool → Bool
differ true b = not b
differ false b = b

unfoldable pub big_div : ℤ → ℤ → ℤ
big_div a b = signed (differ (is_negative a) (is_negative b)) (magnitude a / magnitude b)

unfoldable pub big_rem : ℤ → ℤ → ℤ
big_rem a b = signed (is_negative a) (magnitude a % magnitude b)

abbrev pub is_zero : ℤ → Bool
is_zero z = magnitude z == 0

unfoldable pub big_int_floor_div : ℤ → ℤ → ℤ
unfolding big_div big_rem
big_int_floor_div a b =
    if not (is_zero (big_rem a b)) && differ (is_negative (big_rem a b)) (is_negative b)
    then big_div a b -ℤ pos 1
    else big_div a b

pub record Share : Type 0 where
  pub line : AllocationLine
  pub floor_share : ℤ
  pub remainder : ℤ

unfoldable pub share_of : ℤ → ℤ → AllocationLine → Share
share_of adjustment total line =
    let numerator = pos line.gross_amount_minor *ℤ adjustment in
    let floor_share = big_int_floor_div numerator total in
    record { line = line; floor_share = floor_share; remainder = numerator -ℤ floor_share *ℤ total }

unfoldable pub sum_floors : List Share → ℤ
sum_floors [] = pos 0
sum_floors (s ∷ ss) = s.floor_share +ℤ sum_floors ss

-- The comparison of the sort is not positive: a larger remainder goes first, and at equal remainders
-- the smaller display order. The sort is stable.
unfoldable pub ranks_before : Share → Share → Bool
ranks_before a b =
    ltb_ℤ b.remainder a.remainder
    || (leb_ℤ b.remainder a.remainder && leb a.line.display_order b.line.display_order)

unfoldable pub insert_ranked : Share → List Share → List Share
insert_ranked s [] = s ∷ []
insert_ranked s (x ∷ xs) = if ranks_before s x then s ∷ x ∷ xs else x ∷ insert_ranked s xs

unfoldable pub rank : List Share → List Share
rank [] = []
rank (s ∷ ss) = insert_ranked s (rank ss)

unfoldable pub floor_entries : List Share → AmountMap → AmountMap
floor_entries [] m = m
floor_entries (s ∷ ss) m = floor_entries ss (put m s.line.line_id s.floor_share)

-- One more unit for each of the first shares; a missing share or entry is a `TypeError`.
unfoldable pub raise_entry : Option ℤ → ℕ → AmountMap → Outcome AmountMap
raise_entry none id m = throws internal
raise_entry (some v) id m = ok (put m id (v +ℤ pos 1))

unfoldable pub raise_units : ℕ → List Share → AmountMap → Outcome AmountMap
raise_units zero ranked m = ok m
raise_units (suc units) [] m = throws internal
raise_units (suc units) (target ∷ ranked) m = do
  raised ← raise_entry (m target.line.line_id) target.line.line_id m
  raise_units units ranked raised

-- A line without an entry would be NaN in the source, and is an error here.
unfoldable pub net_entry : Option ℤ → AllocationLine → AmountMap → Outcome AmountMap
net_entry none line net = throws internal
net_entry (some share) line net = ok (put net line.line_id (pos line.gross_amount_minor +ℤ share))

unfoldable pub net_entries : List AllocationLine → AmountMap → AmountMap → Outcome AmountMap
net_entries [] allocated net = ok net
net_entries (line ∷ lines) allocated net = do
  net' ← net_entry (allocated line.line_id) line net
  net_entries lines allocated net'

unfoldable pub gross_entries : List AllocationLine → AmountMap → AmountMap
gross_entries [] m = m
gross_entries (line ∷ lines) m =
    gross_entries lines (put m line.line_id (pos line.gross_amount_minor))

abbrev pub gross_total : List AllocationLine → ℕ
gross_total [] = 0
gross_total (line ∷ lines) = line.gross_amount_minor + gross_total lines

unfoldable pub allocate_proportionally : List AllocationLine → ℤ → Outcome AmountMap
allocate_proportionally lines adjustment =
    let shares = map (share_of adjustment (pos (gross_total lines))) lines in
    let remaining_units = pos_part (adjustment -ℤ sum_floors shares) in
    raise_units remaining_units (rank shares) (floor_entries shares empty_map) >>= λ allocated.
    net_entries lines allocated empty_map

unfoldable pub allocate_adjustments_across_lines : List AllocationLine → ℤ → Outcome AmountMap
allocate_adjustments_across_lines [] adjustment = ok empty_map
allocate_adjustments_across_lines (first ∷ rest) adjustment =
    if gross_total (first ∷ rest) == 0
    then ok (gross_entries (first ∷ rest) empty_map)
    else allocate_proportionally (first ∷ rest) adjustment
