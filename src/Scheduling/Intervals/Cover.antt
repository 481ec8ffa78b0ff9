-- ===== src/Scheduling/Intervals/Cover.antt =====
-- The minutes that a list of ranges covers, and what merging, intersecting and subtracting do to
-- them.
use mathlib.Core.List.{reverse, reverse-cons}
use kora_os.Common.{
  ℕ, ◌≤◌, ◌≡◌, refl, ◌∙◌, Bool, false, not, ◌&&◌, ◌||◌, List, [], ◌∷◌, ◌++◌, leb, ltb, arith,
  Bool-cases, inl, inr,
}
use kora_os.Scheduling.Intervals.{
  MinuteRange, insert_by_start, sort_by_start, merge_into, merge_sorted, merge_minute_ranges,
  intersect_one, intersect_all, intersect_minute_ranges, remove_from, remove_from_all, remove_each,
  subtract_minute_ranges,
}

-- Minute `m` lies in the range, its end excluded.
abbrev pub within : ℕ → MinuteRange → Bool
within m r = leb r.0 m && ltb m r.1

pub covers : ℕ → List MinuteRange → Bool
covers m [] = false
covers m (r ∷ rs) = within m r || covers m rs

covers-append :
    (m : ℕ) (xs ys : List MinuteRange) → covers m (xs ++ ys) ≡ (covers m xs || covers m ys)
unfolding covers
covers-append m [] ys = refl
covers-append m (x ∷ xs) ys = ground (arith, covers-append m xs ys)

covers-reverse : (m : ℕ) (xs : List MinuteRange) → covers m (reverse xs) ≡ covers m xs
unfolding covers
covers-reverse m [] = refl
covers-reverse m (x ∷ xs) =
    rw (reverse-cons x xs)
      (ground (arith, covers-append m (reverse xs) (x ∷ []), covers-reverse m xs))

covers-insert_by_start :
    (m : ℕ) (r : MinuteRange) (xs : List MinuteRange)
    → covers m (insert_by_start r xs) ≡ (within m r || covers m xs)
unfolding covers insert_by_start
covers-insert_by_start m r [] = refl
covers-insert_by_start m r (x ∷ xs) = ground (arith, covers-insert_by_start m r xs)

covers-sort_by_start : (m : ℕ) (xs : List MinuteRange) → covers m (sort_by_start xs) ≡ covers m xs
unfolding covers sort_by_start
covers-sort_by_start m [] = refl
covers-sort_by_start m (x ∷ xs) =
    ground (arith, covers-insert_by_start m x (sort_by_start xs), covers-sort_by_start m xs)

-- The starts do not fall along the list, and none lies before the bound.
abbrev pub StartsFrom : ℕ → List MinuteRange → Type 0
StartsFrom b [] = Unit {0}
StartsFrom b (r ∷ rs) = (b ≤ r.0) × StartsFrom r.0 rs

StartsFrom-insert_by_start :
    (b : ℕ) (r : MinuteRange) (xs : List MinuteRange)
    → b ≤ r.0
    → StartsFrom b xs
    → StartsFrom b (insert_by_start r xs)
unfolding insert_by_start
StartsFrom-insert_by_start b r [] h s = (h, tt)
StartsFrom-insert_by_start b r (x ∷ xs) h s = elim (Bool-cases (leb r.0 x.0)) [
  | inl e ↦ rw e (h, (ground arith, s.1))
  | inr e ↦ rw e (s.0, StartsFrom-insert_by_start x.0 r xs (ground arith) s.1)
]

pub StartsFrom-sort_by_start : (xs : List MinuteRange) → StartsFrom 0 (sort_by_start xs)
unfolding sort_by_start
StartsFrom-sort_by_start [] = tt
StartsFrom-sort_by_start (x ∷ xs) =
    StartsFrom-insert_by_start 0 x (sort_by_start xs) (omega arith) (StartsFrom-sort_by_start xs)

-- The last merged range starts no later than `b`.
abbrev pub LastBefore : List MinuteRange → ℕ → Type 0
LastBefore [] b = Unit {0}
LastBefore (last ∷ merged) b = last.0 ≤ b

covers-merge_into :
    (m : ℕ) (merged : List MinuteRange) (r : MinuteRange)
    → LastBefore merged r.0
    → covers m (merge_into merged r) ≡ (covers m merged || within m r)
unfolding covers merge_into
covers-merge_into m [] r h = ground arith
covers-merge_into m (last ∷ merged) r h = ground arith

pub LastBefore-merge_into :
    (merged : List MinuteRange) (r : MinuteRange)
    → LastBefore merged r.0
    → LastBefore (merge_into merged r) r.0
unfolding merge_into
LastBefore-merge_into [] r h = omega arith
LastBefore-merge_into (last ∷ merged) r h = ground arith

pub LastBefore-mono :
    (merged : List MinuteRange) (b c : ℕ) → b ≤ c → LastBefore merged b → LastBefore merged c
LastBefore-mono [] b c h l = tt
LastBefore-mono (last ∷ merged) b c h l = omega arith

covers-merge_sorted :
    (m : ℕ) (b : ℕ) (merged rs : List MinuteRange)
    → LastBefore merged b
    → StartsFrom b rs
    → covers m (merge_sorted merged rs) ≡ (covers m merged || covers m rs)
unfolding covers merge_sorted
covers-merge_sorted m b merged [] l s = ground (arith, covers-reverse m merged)
covers-merge_sorted m b merged (r ∷ rs) l s =
    let l' = LastBefore-mono merged b r.0 s.0 l in
    ground (
      arith,
      covers-merge_into m merged r l',
      covers-merge_sorted m r.0 (merge_into merged r) rs (LastBefore-merge_into merged r l') s.1,
    )

-- Merging changes neither which minutes are covered nor, by that, which are free.
pub covers-merge_minute_ranges :
    (m : ℕ) (rs : List MinuteRange) → covers m (merge_minute_ranges rs) ≡ covers m rs
unfolding merge_minute_ranges covers
covers-merge_minute_ranges m rs =
    covers-merge_sorted m 0 [] (sort_by_start rs) tt (StartsFrom-sort_by_start rs)
    ∙ covers-sort_by_start m rs

covers-intersect_one :
    (m : ℕ) (x : MinuteRange) (ys : List MinuteRange)
    → covers m (intersect_one x ys) ≡ (within m x && covers m ys)
unfolding covers intersect_one
covers-intersect_one m x [] = ground arith
covers-intersect_one m x (y ∷ ys) = ground (arith, covers-intersect_one m x ys)

covers-intersect_all :
    (m : ℕ) (xs ys : List MinuteRange)
    → covers m (intersect_all xs ys) ≡ (covers m xs && covers m ys)
unfolding covers intersect_all
covers-intersect_all m [] ys = refl
covers-intersect_all m (x ∷ xs) ys = ground (
  arith,
  covers-append m (intersect_one x ys) (intersect_all xs ys),
  covers-intersect_one m x ys,
  covers-intersect_all m xs ys,
)

-- The intersection covers exactly the minutes that both lists cover.
pub covers-intersect_minute_ranges :
    (m : ℕ) (a b : List MinuteRange)
    → covers m (intersect_minute_ranges a b) ≡ (covers m a && covers m b)
unfolding intersect_minute_ranges
covers-intersect_minute_ranges m a b =
    covers-merge_minute_ranges m (intersect_all a b) ∙ covers-intersect_all m a b

covers-remove_from :
    (m : ℕ) (x r : MinuteRange) → covers m (remove_from x r) ≡ (within m r && not (within m x))
unfolding covers remove_from
covers-remove_from m x r = ground arith

covers-remove_from_all :
    (m : ℕ) (x : MinuteRange) (rs : List MinuteRange)
    → covers m (remove_from_all x rs) ≡ (covers m rs && not (within m x))
unfolding covers remove_from_all
covers-remove_from_all m x [] = refl
covers-remove_from_all m x (r ∷ rs) = ground (
  arith,
  covers-append m (remove_from x r) (remove_from_all x rs),
  covers-remove_from m x r,
  covers-remove_from_all m x rs,
)

covers-remove_each :
    (m : ℕ) (rs xs : List MinuteRange)
    → covers m (remove_each rs xs) ≡ (covers m rs && not (covers m xs))
unfolding covers remove_each
covers-remove_each m rs [] = ground arith
covers-remove_each m rs (x ∷ xs) =
    ground (arith, covers-remove_each m (remove_from_all x rs) xs, covers-remove_from_all m x rs)

-- The difference covers exactly the minutes that the base covers and the removed ranges do not.
pub covers-subtract_minute_ranges :
    (m : ℕ) (base removed : List MinuteRange)
    → covers m (subtract_minute_ranges base removed) ≡ (covers m base && not (covers m removed))
unfolding subtract_minute_ranges
covers-subtract_minute_ranges m base removed = ground (
  arith,
  covers-remove_each m (merge_minute_ranges base) removed,
  covers-merge_minute_ranges m base,
)
