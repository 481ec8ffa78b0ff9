-- ===== src/Scheduling/Intervals.antt =====
-- apps/api/src/common/scheduling/interval-math.util.ts and interval-validation.util.ts: ranges of
-- minutes merged, intersected and subtracted, and the same on pairs of local times.
pub mod Cover
pub mod Separated
pub mod Validation
use mathlib.Core.List.{reverse}
use kora_os.Common.{
  ℕ, min, max, Bool, true, false, ◌&&◌, ◌||◌, Option, none, some, List, [], ◌∷◌, ◌++◌, map, leb,
  ltb, if◌then◌else◌, Outcome, ok, throws, bad_request, plain, ◌>>=◌, ◌>>◌, throw_if,
}
use kora_os.Common.Int.{pos, ltb_ℤ, leb_ℤ}
use kora_os.Scheduling.LocalTime.{compare_local_times, local_time_to_minutes, minutes_to_local_time}

pub record LocalTimeInterval : Type 0 where
  pub start_local_time : List ℕ
  pub end_local_time : List ℕ

abbrev pub MinuteRange : Type 0
MinuteRange = ℕ × ℕ

-- `none` where an interval holds a text that is no time.
unfoldable pub to_minute_ranges : List LocalTimeInterval → Option (List MinuteRange)
to_minute_ranges [] = some []
to_minute_ranges (i ∷ is) = elim (local_time_to_minutes i.start_local_time) [
  | none ↦ none
  | some start ↦ elim (local_time_to_minutes i.end_local_time) [
    | none ↦ none
    | some finish ↦ elim (to_minute_ranges is) [
      | none ↦ none
      | some ranges ↦ some ((start, finish) ∷ ranges)
    ]
  ]
]

unfoldable pub from_minute_ranges : List MinuteRange → List LocalTimeInterval
from_minute_ranges = map (λ r. record {
  start_local_time = minutes_to_local_time r.0;
  end_local_time = minutes_to_local_time r.1;
})

-- `sort((a, b) => a[0] - b[0])`, which is stable.
unfoldable pub insert_by_start : MinuteRange → List MinuteRange → List MinuteRange
insert_by_start r [] = r ∷ []
insert_by_start r (x ∷ xs) = if leb r.0 x.0 then r ∷ x ∷ xs else x ∷ insert_by_start r xs

unfoldable pub sort_by_start : List MinuteRange → List MinuteRange
sort_by_start [] = []
sort_by_start (r ∷ rs) = insert_by_start r (sort_by_start rs)

-- One round of the loop of `mergeMinuteRanges`; the head of `merged` is its last element.
unfoldable pub merge_into : List MinuteRange → MinuteRange → List MinuteRange
merge_into [] r = r ∷ []
merge_into (last ∷ merged) r =
    if leb r.0 last.1 then (last.0, max last.1 r.1) ∷ merged else r ∷ last ∷ merged

unfoldable pub merge_sorted : List MinuteRange → List MinuteRange → List MinuteRange
merge_sorted merged [] = reverse merged
merge_sorted merged (r ∷ rs) = merge_sorted (merge_into merged r) rs

unfoldable pub merge_minute_ranges : List MinuteRange → List MinuteRange
merge_minute_ranges ranges = merge_sorted [] (sort_by_start ranges)

-- The inner loop of `intersectMinuteRanges`, for one range of `a`.
unfoldable pub intersect_one : MinuteRange → List MinuteRange → List MinuteRange
intersect_one x [] = []
intersect_one x (y ∷ ys) =
    if ltb (max x.0 y.0) (min x.1 y.1)
    then (max x.0 y.0, min x.1 y.1) ∷ intersect_one x ys
    else intersect_one x ys

unfoldable pub intersect_all : List MinuteRange → List MinuteRange → List MinuteRange
intersect_all [] b = []
intersect_all (x ∷ xs) b = intersect_one x b ++ intersect_all xs b

unfoldable pub intersect_minute_ranges : List MinuteRange → List MinuteRange → List MinuteRange
intersect_minute_ranges a b = merge_minute_ranges (intersect_all a b)

-- What the body of the inner loop of `subtractMinuteRanges` pushes for one range of `result`.
unfoldable pub remove_from : MinuteRange → MinuteRange → List MinuteRange
remove_from removed r =
    if leb removed.1 r.0 || leb r.1 removed.0
    then r ∷ []
    else (if ltb r.0 removed.0 then (r.0, removed.0) ∷ [] else [])
      ++ (if ltb removed.1 r.1 then (removed.1, r.1) ∷ [] else [])

unfoldable pub remove_from_all : MinuteRange → List MinuteRange → List MinuteRange
remove_from_all removed [] = []
remove_from_all removed (r ∷ rs) = remove_from removed r ++ remove_from_all removed rs

unfoldable pub remove_each : List MinuteRange → List MinuteRange → List MinuteRange
remove_each result [] = result
remove_each result (removed ∷ rest) = remove_each (remove_from_all removed result) rest

unfoldable pub subtract_minute_ranges : List MinuteRange → List MinuteRange → List MinuteRange
subtract_minute_ranges base remove = remove_each (merge_minute_ranges base) remove

-- The exported functions; `none` where a text is no time.
unfoldable pub on_local_intervals :
    (List MinuteRange → List MinuteRange → List MinuteRange)
    → List LocalTimeInterval
    → List LocalTimeInterval
    → Option (List LocalTimeInterval)
on_local_intervals f a b = elim (to_minute_ranges a) [
  | none ↦ none
  | some ra ↦ elim (to_minute_ranges b) [
    | none ↦ none
    | some rb ↦ some (from_minute_ranges (f ra rb))
  ]
]

unfoldable pub intersect_local_intervals :
    List LocalTimeInterval → List LocalTimeInterval → Option (List LocalTimeInterval)
intersect_local_intervals = on_local_intervals intersect_minute_ranges

unfoldable pub subtract_local_intervals :
    List LocalTimeInterval → List LocalTimeInterval → Option (List LocalTimeInterval)
subtract_local_intervals = on_local_intervals subtract_minute_ranges

-- Two groups; the source takes any number of them.
unfoldable pub merge_local_intervals :
    List LocalTimeInterval → List LocalTimeInterval → Option (List LocalTimeInterval)
merge_local_intervals = on_local_intervals (λ a b. merge_minute_ranges (a ++ b))

-- interval-validation.util.ts

unfoldable pub assert_valid_interval_order : LocalTimeInterval → Outcome (Unit {0})
assert_valid_interval_order i =
    throw_if (leb_ℤ (pos 0) (compare_local_times i.start_local_time i.end_local_time))
      (bad_request plain)

unfoldable pub assert_all_ordered : List LocalTimeInterval → Outcome (Unit {0})
assert_all_ordered [] = ok tt
assert_all_ordered (i ∷ is) = do assert_valid_interval_order i; assert_all_ordered is

unfoldable pub insert_interval : LocalTimeInterval → List LocalTimeInterval → List LocalTimeInterval
insert_interval i [] = i ∷ []
insert_interval i (x ∷ xs) =
    if leb_ℤ (compare_local_times i.start_local_time x.start_local_time) (pos 0)
    then i ∷ x ∷ xs
    else x ∷ insert_interval i xs

unfoldable pub sort_intervals : List LocalTimeInterval → List LocalTimeInterval
sort_intervals [] = []
sort_intervals (i ∷ is) = insert_interval i (sort_intervals is)

-- The loop over neighbours, with the previous interval.
unfoldable pub assert_neighbours : LocalTimeInterval → List LocalTimeInterval → Outcome (Unit {0})
assert_neighbours previous [] = ok tt
assert_neighbours previous (current ∷ rest) = do
  throw_if (ltb_ℤ (compare_local_times current.start_local_time previous.end_local_time) (pos 0))
      (bad_request plain)
  assert_neighbours current rest

unfoldable pub assert_chain : List LocalTimeInterval → Outcome (Unit {0})
assert_chain [] = ok tt
assert_chain (first ∷ rest) = assert_neighbours first rest

unfoldable pub assert_no_overlapping_intervals : List LocalTimeInterval → Outcome (Unit {0})
assert_no_overlapping_intervals intervals = do
  assert_all_ordered intervals
  assert_chain (sort_intervals intervals)
