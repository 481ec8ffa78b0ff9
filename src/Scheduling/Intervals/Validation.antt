-- ===== src/Scheduling/Intervals/Validation.antt =====
-- interval-validation.util.ts: overlaps of the intervals that the validation accepts.
use kora_os.Common.{
  ℕ, suc, ◌≤◌, ◌<◌, ◌≡◌, refl, true, ◌&&◌, Option, none, some, List, [], ◌∷◌, All, leb, ltb,
  if◌then◌else◌, ok, arith, Bool-cases, inl, inr, throw_if-eq-ok, >>=-eq-ok,
}
use kora_os.Common.Int.{pos, negsuc, leb_ℤ}
use kora_os.Scheduling.LocalTime.{is_valid_local_time, compare_local_times, local_time_to_minutes}
use kora_os.Scheduling.LocalTime.Laws.{compare_local_times-minutes, valid-minutes}
use kora_os.Scheduling.Intervals.{
  LocalTimeInterval, assert_valid_interval_order, assert_all_ordered, insert_interval,
  sort_intervals, assert_neighbours, assert_chain, assert_no_overlapping_intervals,
}

abbrev value_or_zero : Option ℕ → ℕ
value_or_zero none = 0
value_or_zero (some n) = n

-- The minutes since midnight of a valid time.
pub minutes : List ℕ → ℕ
minutes t = value_or_zero (local_time_to_minutes t)

abbrev pub IsTimed : LocalTimeInterval → Type 0
IsTimed i =
    (is_valid_local_time i.start_local_time ≡ true) × (is_valid_local_time i.end_local_time ≡ true)

-- How many of the intervals hold the minute.
pub overlap_at : ℕ → List LocalTimeInterval → ℕ
overlap_at m [] = 0
overlap_at m (i ∷ is) =
    if leb (minutes i.start_local_time) m && ltb m (minutes i.end_local_time)
    then suc (overlap_at m is)
    else overlap_at m is

minutes_of_valid :
    (t : List ℕ) → is_valid_local_time t ≡ true → local_time_to_minutes t ≡ some (minutes t)
unfolding minutes
minutes_of_valid t v = let (m, e) = valid-minutes t v in rw e refl

compare-minutes :
    (s t : List ℕ)
    → is_valid_local_time s ≡ true
    → is_valid_local_time t ≡ true
    → compare_local_times s t ≡ (
        if ltb (minutes s) (minutes t)
        then negsuc 0
        else if ltb (minutes t) (minutes s)
        then pos 1
        else pos 0)
compare-minutes s t vs vt =
    compare_local_times-minutes s t (minutes s) (minutes t) vs vt (minutes_of_valid s vs)
      (minutes_of_valid t vt)

overlap_at-insert_interval :
    (m : ℕ) (i : LocalTimeInterval) (is : List LocalTimeInterval)
    → overlap_at m (insert_interval i is) ≡ overlap_at m (i ∷ is)
unfolding overlap_at insert_interval
overlap_at-insert_interval m i [] = refl
overlap_at-insert_interval m i (x ∷ is) = ground (arith, overlap_at-insert_interval m i is)

overlap_at-sort_intervals :
    (m : ℕ) (is : List LocalTimeInterval) → overlap_at m (sort_intervals is) ≡ overlap_at m is
unfolding overlap_at sort_intervals
overlap_at-sort_intervals m [] = refl
overlap_at-sort_intervals m (i ∷ is) =
    ground
      (arith, overlap_at-insert_interval m i (sort_intervals is), overlap_at-sort_intervals m is)

All-insert_interval :
    (P : LocalTimeInterval → Type 0) (i : LocalTimeInterval) (is : List LocalTimeInterval)
    → P i
    → All P is
    → All P (insert_interval i is)
unfolding insert_interval
All-insert_interval P i [] p a = (p, tt)
All-insert_interval P i (x ∷ is) p a =
    elim (Bool-cases (leb_ℤ (compare_local_times i.start_local_time x.start_local_time) (pos 0))) [
      | inl e ↦ rw e (p, a)
      | inr e ↦ rw e (a.0, All-insert_interval P i is p a.1)
    ]

All-sort_intervals :
    (P : LocalTimeInterval → Type 0) (is : List LocalTimeInterval)
    → All P is
    → All P (sort_intervals is)
unfolding sort_intervals
All-sort_intervals P [] a = tt
All-sort_intervals P (i ∷ is) a =
    All-insert_interval P i (sort_intervals is) a.0 (All-sort_intervals P is a.1)

-- Both ends are valid, and the interval starts before it ends.
abbrev IsOrdered : LocalTimeInterval → Type 0
IsOrdered i =
    (is_valid_local_time i.start_local_time ≡ true)
    × (is_valid_local_time i.end_local_time ≡ true)
    × (minutes i.start_local_time < minutes i.end_local_time)

IsOrdered-of_assert :
    (i : LocalTimeInterval) → IsTimed i → assert_valid_interval_order i ≡ ok tt → IsOrdered i
unfolding assert_valid_interval_order
IsOrdered-of_assert i (vs, ve) h =
    (vs, ve, ground (arith, compare-minutes i.start_local_time i.end_local_time vs ve))

All-IsOrdered_of_assert :
    (is : List LocalTimeInterval)
    → All IsTimed is
    → assert_all_ordered is ≡ ok tt
    → All IsOrdered is
unfolding assert_all_ordered
All-IsOrdered_of_assert [] a h = tt
All-IsOrdered_of_assert (i ∷ is) a h =
    let (u, first, rest) =
      >>=-eq-ok (assert_valid_interval_order i) (λ _. assert_all_ordered is) h in
    (IsOrdered-of_assert i a.0 first, All-IsOrdered_of_assert is a.1 rest)

none_before :
    (m : ℕ) (previous : LocalTimeInterval) (is : List LocalTimeInterval)
    → IsOrdered previous
    → All IsOrdered is
    → assert_neighbours previous is ≡ ok tt
    → (overlap_at m is ≤ 1) × (m < minutes previous.end_local_time → overlap_at m is ≡ 0)
unfolding overlap_at assert_neighbours
none_before m previous [] o a h = (omega arith, λ _. refl)
none_before m previous (i ∷ is) o a h =
    let (gap, rest) = throw_if-eq-ok _ _ (assert_neighbours i is) h in
    let (most, before) = none_before m i is a.0 a.1 rest in
    let order = compare-minutes i.start_local_time previous.end_local_time a.0.0 o.1 in
    (ground (arith, before), λ lt. ground (arith, before, order))

chain_overlap :
    (m : ℕ) (is : List LocalTimeInterval)
    → All IsOrdered is
    → assert_chain is ≡ ok tt
    → overlap_at m is ≤ 1
unfolding overlap_at assert_chain
chain_overlap m [] a h = omega arith
chain_overlap m (i ∷ is) a h =
    let (most, before) = none_before m i is a.0 a.1 h in ground (arith, before)

-- Where the validation accepts a group of intervals with valid times, no minute of the day lies in
-- two of them, in whatever order they were given.
pub no_overlap_of_assert :
    (is : List LocalTimeInterval) (m : ℕ)
    → All IsTimed is
    → assert_no_overlapping_intervals is ≡ ok tt
    → overlap_at m is ≤ 1
unfolding assert_no_overlapping_intervals
no_overlap_of_assert is m a h =
    let (u, ordered, chain) =
      >>=-eq-ok (assert_all_ordered is) (λ _. assert_chain (sort_intervals is)) h in
    let sorted = All-sort_intervals IsOrdered is (All-IsOrdered_of_assert is a ordered) in
    omega (arith, chain_overlap m (sort_intervals is) sorted chain, overlap_at-sort_intervals m is)
