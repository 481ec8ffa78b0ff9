-- ===== src/Scheduling/LocalTime/Laws.antt =====
-- local-time.util.ts: conversions between local times and minutes, and their orders.
use kora_os.Common.{
  ℕ, ◌+◌, ◌-◌, ◌*◌, ◌/◌, ◌%◌, ◌<◌, ◌≡◌, refl, ap, ◌∙◌, true, some, List, [], ◌∷◌, arith, ltb,
  if◌then◌else◌,
}
use kora_os.Common.Int.{pos, negsuc}
use kora_os.Scheduling.LocalTime.{
  is_valid_local_time, string_lt, compare_local_times, local_time_to_minutes, padded,
  minutes_to_local_time,
}

-- The digits of a valid time.
abbrev pub Digits : List ℕ → Type 0
Digits t =
    (a : ℕ) × (b : ℕ) × (d : ℕ) × (e : ℕ) × (t
      ≡ (b'0' + a) ∷ (b'0' + b) ∷ b':' ∷ (b'0' + d) ∷ (b'0' + e) ∷ [])
    × (10 * a + b < 24)
    × (b < 10)
    × (d < 6)
    × (e < 10)

five-Digits :
    (a b c d e : ℕ)
    → is_valid_local_time (a ∷ b ∷ c ∷ d ∷ e ∷ []) ≡ true
    → Digits (a ∷ b ∷ c ∷ d ∷ e ∷ [])
unfolding is_valid_local_time
five-Digits a b c d e h = (
  a - b'0',
  b - b'0',
  d - b'0',
  e - b'0',
  ground arith,
  ground arith,
  ground arith,
  ground arith,
  ground arith,
)

pub Digits-of_valid : (t : List ℕ) → is_valid_local_time t ≡ true → Digits t
unfolding is_valid_local_time
Digits-of_valid (a ∷ b ∷ c ∷ d ∷ e ∷ []) h = five-Digits a b c d e h
Digits-of_valid _ h = cc

minutes_of_digits :
    (a b d e : ℕ)
    → b < 10
    → a < 10
    → d < 10
    → e < 10
    → local_time_to_minutes ((b'0' + a) ∷ (b'0' + b) ∷ b':' ∷ (b'0' + d) ∷ (b'0' + e) ∷ [])
      ≡ some ((10 * a + b) * 60 + (10 * d + e))
unfolding local_time_to_minutes
minutes_of_digits a b d e h i j k = ground arith

abbrev clock : ℕ → ℕ → ℕ → ℕ → List ℕ
clock a b d e = (b'0' + a) ∷ (b'0' + b) ∷ b':' ∷ (b'0' + d) ∷ (b'0' + e) ∷ []

abbrev clock_minutes : ℕ → ℕ → ℕ → ℕ → ℕ
clock_minutes a b d e = (10 * a + b) * 60 + (10 * d + e)

string_lt-clock :
    (a b d e a' b' d' e' : ℕ)
    → b < 10
    → d < 6
    → e < 10
    → b' < 10
    → d' < 6
    → e' < 10
    → string_lt (clock a b d e) (clock a' b' d' e')
      ≡ ltb (clock_minutes a b d e) (clock_minutes a' b' d' e')
unfolding string_lt
string_lt-clock a b d e a' b' d' e' p q r p' q' r' = ground arith

padded-digits : (n : ℕ) → n < 100 → padded n ≡ (b'0' + n / 10) ∷ (b'0' + n % 10) ∷ []
unfolding padded
padded-digits n h = ground arith

clock_of_minutes :
    (n : ℕ)
    → n < 1440
    → minutes_to_local_time n ≡ clock (n / 60 / 10) (n / 60 % 10) (n % 60 / 10) (n % 60 % 10)
unfolding minutes_to_local_time
clock_of_minutes n h =
    rw (padded-digits (n / 60 % 24) (omega arith), padded-digits (n % 60) (omega arith))
      (ground arith)

-- On valid times the texts compare as the times do: before, after or equal by the strings' own order
-- exactly as the minutes since midnight.
pub compare_local_times-minutes :
    (s t : List ℕ) (m n : ℕ)
    → is_valid_local_time s ≡ true
    → is_valid_local_time t ≡ true
    → local_time_to_minutes s ≡ some m
    → local_time_to_minutes t ≡ some n
    → compare_local_times s t ≡ (if ltb m n then negsuc 0 else if ltb n m then pos 1 else pos 0)
unfolding compare_local_times
compare_local_times-minutes s t m n vs vt es et =
    let (a, b, d, e, is_s, p, q, r, u) = Digits-of_valid s vs in
    let (a', b', d', e', is_t, p', q', r', u') = Digits-of_valid t vt in
    let ms =
      ap local_time_to_minutes is_s ∙ minutes_of_digits a b d e q (omega arith) (omega arith) u in
    let mt =
      ap local_time_to_minutes is_t
      ∙ minutes_of_digits a' b' d' e' q' (omega arith) (omega arith) u' in
    let m_is : m ≡ clock_minutes a b d e = cc in
    let n_is : n ≡ clock_minutes a' b' d' e' = cc in
    rw
      (
        is_s,
        is_t,
        m_is,
        n_is,
        string_lt-clock a b d e a' b' d' e' q r u q' r' u',
        string_lt-clock a' b' d' e' a b d e q' r' u' q r u,
      )
      refl

-- Reading back a printed time gives the minutes, for every minute of the day.
pub local_time_to_minutes_of_minutes :
    (n : ℕ) → n < 1440 → local_time_to_minutes (minutes_to_local_time n) ≡ some n
local_time_to_minutes_of_minutes n h = rw (clock_of_minutes n h) (
    minutes_of_digits (n / 60 / 10) (n / 60 % 10) (n % 60 / 10) (n % 60 % 10) (omega arith)
      (omega arith) (omega arith) (omega arith)
    ∙ ap some (omega arith))

-- What is printed is always a valid time.
pub minutes_to_local_time-valid : (n : ℕ) → is_valid_local_time (minutes_to_local_time n) ≡ true
unfolding minutes_to_local_time padded is_valid_local_time
minutes_to_local_time-valid n = ground arith

-- Printing what was read from a valid time gives the same text.
pub minutes_to_local_time_of_local_time :
    (t : List ℕ) (m : ℕ)
    → is_valid_local_time t ≡ true
    → local_time_to_minutes t ≡ some m
    → (minutes_to_local_time m ≡ t) × (m < 1440)
minutes_to_local_time_of_local_time t m v et =
    let (a, b, d, e, is_t, p, q, r, u) = Digits-of_valid t v in
    let m_is : m ≡ clock_minutes a b d e =
      cc (
        ap local_time_to_minutes is_t,
        minutes_of_digits a b d e q (omega arith) (omega arith) u,
      ) in
    (
      rw (m_is, is_t) (clock_of_minutes (clock_minutes a b d e) (omega arith) ∙ ground arith),
      omega arith,
    )

pub valid-minutes :
    (t : List ℕ) → is_valid_local_time t ≡ true → (m : ℕ) × (local_time_to_minutes t ≡ some m)
valid-minutes t v =
    let (a, b, d, e, is_t, p, q, r, u) = Digits-of_valid t v in
    (
      clock_minutes a b d e,
      ap local_time_to_minutes is_t ∙ minutes_of_digits a b d e q (omega arith) (omega arith) u,
    )
