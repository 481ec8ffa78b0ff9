-- ===== src/Scheduling/Intervals/Separated.antt =====
-- interval-math.util.ts: the form of merged ranges.
use mathlib.Core.List.{reverse, reverse-cons, append_assoc, append-nil}
use kora_os.Common.{ℕ, ◌<◌, List, [], ◌∷◌, ◌++◌, leb, arith, All, Bool-cases, inl, inr}
use kora_os.Scheduling.Intervals.{
  MinuteRange, insert_by_start, sort_by_start, merge_into, merge_sorted, merge_minute_ranges,
}

abbrev pub IsProper : MinuteRange → Type 0
IsProper r = r.0 < r.1

-- The first range starts after `b`.
abbrev pub After : ℕ → List MinuteRange → Type 0
After b [] = Unit {0}
After b (r ∷ rs) = b < r.0

abbrev pub IsSeparated : List MinuteRange → Type 0
IsSeparated [] = Unit {0}
IsSeparated (r ∷ rs) = (r.0 < r.1) × After r.1 rs × IsSeparated rs

-- The same of a list whose head is its last range.
abbrev EndsBefore : List MinuteRange → ℕ → Type 0
EndsBefore [] b = Unit {0}
EndsBefore (last ∷ merged) b = last.1 < b

abbrev IsStacked : List MinuteRange → Type 0
IsStacked [] = Unit {0}
IsStacked (last ∷ merged) = (last.0 < last.1) × EndsBefore merged last.0 × IsStacked merged

abbrev Joined : List MinuteRange → List MinuteRange → Type 0
Joined [] ys = Unit {0}
Joined (x ∷ xs) ys = After x.1 ys

Joined-cons :
    (xs : List MinuteRange) (x : MinuteRange) (ys : List MinuteRange)
    → EndsBefore xs x.0
    → Joined xs (x ∷ ys)
Joined-cons [] x ys h = tt
Joined-cons (y ∷ xs) x ys h = h

IsSeparated-reverse :
    (xs ys : List MinuteRange)
    → IsStacked xs
    → IsSeparated ys
    → Joined xs ys
    → IsSeparated (reverse xs ++ ys)
IsSeparated-reverse [] ys s t j = t
IsSeparated-reverse (x ∷ xs) ys s t j =
    rw (reverse-cons x xs, append_assoc (reverse xs) (x ∷ []) ys)
      (IsSeparated-reverse xs (x ∷ ys) s.2 (s.0, j, t) (Joined-cons xs x ys s.1))

All-insert_by_start :
    (r : MinuteRange) (xs : List MinuteRange)
    → IsProper r
    → All IsProper xs
    → All IsProper (insert_by_start r xs)
unfolding insert_by_start
All-insert_by_start r [] h a = (h, tt)
All-insert_by_start r (x ∷ xs) h a = ground (arith, All-insert_by_start r xs h a.1)

All-sort_by_start : (xs : List MinuteRange) → All IsProper xs → All IsProper (sort_by_start xs)
unfolding sort_by_start
All-sort_by_start [] a = tt
All-sort_by_start (x ∷ xs) a =
    All-insert_by_start x (sort_by_start xs) a.0 (All-sort_by_start xs a.1)

IsStacked-merge_into :
    (merged : List MinuteRange) (r : MinuteRange)
    → IsProper r
    → IsStacked merged
    → IsStacked (merge_into merged r)
unfolding merge_into
IsStacked-merge_into [] r p s = (p, tt, tt)
IsStacked-merge_into (last ∷ merged) r p s = elim (Bool-cases (leb r.0 last.1)) [
  | inl e ↦ rw e (ground arith, s.1, s.2)
  | inr e ↦ rw e (p, ground arith, s)
]

IsSeparated-merge_sorted :
    (b : ℕ) (merged rs : List MinuteRange)
    → IsStacked merged
    → All IsProper rs
    → IsSeparated (merge_sorted merged rs)
unfolding merge_sorted
IsSeparated-merge_sorted b merged [] s a =
    rw (append-nil (reverse merged)) at (IsSeparated-reverse merged [] s tt (joined merged))
  where
    joined : (xs : List MinuteRange) → Joined xs []
    joined [] = tt
    joined (x ∷ xs) = tt
IsSeparated-merge_sorted b merged (r ∷ rs) s a =
    IsSeparated-merge_sorted b (merge_into merged r) rs (IsStacked-merge_into merged r a.0 s) a.1

-- Merging ranges of which none is empty gives ranges in rising order of which none is empty, each
-- starting after the end of the one before it: touching and overlapping ranges are joined.
pub merge_minute_ranges-IsSeparated :
    (rs : List MinuteRange) → All IsProper rs → IsSeparated (merge_minute_ranges rs)
unfolding merge_minute_ranges
merge_minute_ranges-IsSeparated rs a =
    IsSeparated-merge_sorted 0 [] (sort_by_start rs) tt (All-sort_by_start rs a)
