-- ===== src/Scheduling/Tests.antt =====
-- Opening hours with a break, and a day's local times.
use kora_os.Common.{
  ℕ, ◌<◌, ◌≤◌, ◌≡◌, refl, true, not, ◌&&◌, some, List, [], ◌∷◌, ltb, if◌then◌else◌, ok, arith,
}
use kora_os.Common.Int.{pos, negsuc}
use kora_os.Scheduling.LocalTime.{
  is_valid_local_time, compare_local_times, string_lt, local_time_to_minutes, minutes_to_local_time,
}
use kora_os.Scheduling.LocalTime.Laws.{
  compare_local_times-minutes, local_time_to_minutes_of_minutes,
  minutes_to_local_time_of_local_time,
}
use kora_os.Scheduling.Intervals.{
  LocalTimeInterval, MinuteRange, merge_minute_ranges, intersect_minute_ranges,
  subtract_minute_ranges, assert_no_overlapping_intervals, merge_sorted, sort_by_start,
  insert_by_start, merge_into, assert_all_ordered, assert_valid_interval_order, assert_chain,
  sort_intervals, insert_interval, assert_neighbours,
}
use kora_os.Scheduling.Intervals.Cover.{
  covers, covers-merge_minute_ranges, covers-intersect_minute_ranges, covers-subtract_minute_ranges,
}
use kora_os.Scheduling.Intervals.Separated.{IsSeparated, merge_minute_ranges-IsSeparated}
use kora_os.Scheduling.Intervals.Validation.{overlap_at, no_overlap_of_assert}

abbrev nine : List ℕ
nine = b'0' ∷ b'9' ∷ b':' ∷ b'0' ∷ b'0' ∷ []

abbrev half_past_twelve : List ℕ
half_past_twelve = b'1' ∷ b'2' ∷ b':' ∷ b'3' ∷ b'0' ∷ []

abbrev fourteen : List ℕ
fourteen = b'1' ∷ b'4' ∷ b':' ∷ b'0' ∷ b'0' ∷ []

nine_minutes : local_time_to_minutes nine ≡ some 540
unfolding local_time_to_minutes
nine_minutes = refl

half_past_twelve_minutes : local_time_to_minutes half_past_twelve ≡ some 750
unfolding local_time_to_minutes
half_past_twelve_minutes = refl

nine_valid : is_valid_local_time nine ≡ true
unfolding is_valid_local_time
nine_valid = refl

half_past_twelve_valid : is_valid_local_time half_past_twelve ≡ true
unfolding is_valid_local_time
half_past_twelve_valid = refl

compare_local_times-minutes_example :
    compare_local_times nine half_past_twelve
    ≡ (if ltb 540 750 then negsuc 0 else if ltb 750 540 then pos 1 else pos 0)
compare_local_times-minutes_example =
    compare_local_times-minutes nine half_past_twelve 540 750 nine_valid half_past_twelve_valid
      nine_minutes half_past_twelve_minutes

local_time_to_minutes_of_minutes_example :
    local_time_to_minutes (minutes_to_local_time 1439) ≡ some 1439
local_time_to_minutes_of_minutes_example = local_time_to_minutes_of_minutes 1439 (ground arith)

minutes_to_local_time_of_local_time_example : (minutes_to_local_time 540 ≡ nine) × (540 < 1440)
minutes_to_local_time_of_local_time_example =
    minutes_to_local_time_of_local_time nine 540 nine_valid nine_minutes

abbrev opening : List MinuteRange
opening = (840, 1080) ∷ (540, 720) ∷ (700, 780) ∷ []

abbrev working : List MinuteRange
working = (600, 900) ∷ []

covers-merge_minute_ranges_example : covers 710 (merge_minute_ranges opening) ≡ covers 710 opening
covers-merge_minute_ranges_example = covers-merge_minute_ranges 710 opening

covers-intersect_minute_ranges_example :
    covers 800 (intersect_minute_ranges opening working)
    ≡ (covers 800 opening && covers 800 working)
covers-intersect_minute_ranges_example = covers-intersect_minute_ranges 800 opening working

covers-subtract_minute_ranges_example :
    covers 950 (subtract_minute_ranges opening working)
    ≡ (covers 950 opening && not (covers 950 working))
covers-subtract_minute_ranges_example = covers-subtract_minute_ranges 950 opening working

merged : merge_minute_ranges opening ≡ (540, 780) ∷ (840, 1080) ∷ []
unfolding merge_minute_ranges merge_sorted sort_by_start insert_by_start merge_into
merged = refl

merge_minute_ranges-IsSeparated_example : IsSeparated (merge_minute_ranges opening)
merge_minute_ranges-IsSeparated_example =
    merge_minute_ranges-IsSeparated opening (ground arith, (ground arith, (ground arith, tt)))

abbrev split_shift : List LocalTimeInterval
split_shift =
    record { start_local_time = half_past_twelve; end_local_time = fourteen }
    ∷ record { start_local_time = nine; end_local_time = half_past_twelve }
    ∷ []

fourteen_valid : is_valid_local_time fourteen ≡ true
unfolding is_valid_local_time
fourteen_valid = refl

accepted : assert_no_overlapping_intervals split_shift ≡ ok tt
unfolding assert_no_overlapping_intervals assert_all_ordered assert_valid_interval_order
    assert_chain sort_intervals insert_interval assert_neighbours compare_local_times string_lt
accepted = refl

no_overlap_of_assert_example : overlap_at 750 split_shift ≤ 1
no_overlap_of_assert_example =
    no_overlap_of_assert split_shift 750
      ((half_past_twelve_valid, fourteen_valid), ((nine_valid, half_past_twelve_valid), tt))
      accepted
