-- ===== src/Visits/Tickets.antt =====
-- queue-ticket.util.ts: the tickets of a day.
use kora_os.Common.{ℕ, suc, ◌≡◌, refl, true, List, [], ◌∷◌, ◌==◌, ◌&&◌, arith, Bool-cases, inl, inr}
use kora_os.Visits.Schema.{BranchQueueDay}
use kora_os.Visits.Queue.{allocate_queue_ticket, is_day}

is_day_self : (o b d : ℕ) → (o == o && b == b && d == d) ≡ true
is_day_self o b d = ground arith

-- Two tickets in a row for the same branch and date are consecutive and stand on the same row of the
-- day, whether the first one made the row or found it.
pub allocate_queue_ticket-consecutive :
    (first second organization branch date : ℕ) (days : List BranchQueueDay)
    → let (days', id, ticket) = allocate_queue_ticket first organization branch date days in
      let (days'', id', ticket') = allocate_queue_ticket second organization branch date days' in
      (id' ≡ id) × (ticket' ≡ suc ticket)
unfolding allocate_queue_ticket
allocate_queue_ticket-consecutive first second organization branch date [] =
    rw (is_day_self organization branch date) (refl, refl)
allocate_queue_ticket-consecutive first second organization branch date (day ∷ days) =
    elim (Bool-cases (is_day organization branch date day)) [
      | inl e ↦ rw (e, e) (refl, refl)
      | inr e ↦
          rw (e, e) (allocate_queue_ticket-consecutive first second organization branch date days)
    ]
