-- ===== src/Cash/Balance.antt =====
-- cash-expected-balance.util.ts: the expected cash of a drawer against the totals that went in
-- and out.
use kora_os.Common.{ℕ, ◌+◌, ◌≡◌, ◌∙◌, Bool, true, false, List, [], ◌∷◌, if◌then◌else◌}
use kora_os.Common.Int.{ℤ, pos, ◌+ℤ◌, ◌-ℤ◌, ◌*ℤ◌, int_laws}
use kora_os.Cash.Sessions.{
  CashLedgerEntryType, opening_float, payment_received, cash_in, cash_out, safe_drop, refund_paid,
  cash_ledger_entry_direction, CashLedgerEntry, expected_from,
  calculate_expected_closing_cash_minor,
}

abbrev pub comes_in : CashLedgerEntryType → Bool
comes_in opening_float = true
comes_in payment_received = true
comes_in cash_in = true
comes_in cash_out = false
comes_in safe_drop = false
comes_in refund_paid = false

-- Opening float, payments received and cash in.
pub total_in : List CashLedgerEntry → ℕ
total_in [] = 0
total_in (e ∷ es) = if comes_in e.type then e.amount_minor + total_in es else total_in es

-- Cash out, safe drops and refunds.
pub total_out : List CashLedgerEntry → ℕ
total_out [] = 0
total_out (e ∷ es) = if comes_in e.type then total_out es else e.amount_minor + total_out es

signed :
    (type : CashLedgerEntryType) (amount i o : ℕ) (s : ℤ)
    → ((s +ℤ (pos amount *ℤ cash_ledger_entry_direction type)) +ℤ pos i) -ℤ pos o
      ≡ (s +ℤ pos (if comes_in type then amount + i else i))
        -ℤ pos (if comes_in type then o else amount + o)
unfolding cash_ledger_entry_direction ◌*ℤ◌
signed opening_float amount i o s = grind int_laws
signed payment_received amount i o s = grind int_laws
signed cash_in amount i o s = grind int_laws
signed cash_out amount i o s = grind int_laws
signed safe_drop amount i o s = grind int_laws
signed refund_paid amount i o s = grind int_laws

expected_from_lem :
    (es : List CashLedgerEntry) (s : ℤ)
    → expected_from s es ≡ (s +ℤ pos (total_in es)) -ℤ pos (total_out es)
unfolding expected_from total_in total_out
expected_from_lem [] s = grind int_laws
expected_from_lem (e ∷ es) s =
    expected_from_lem es (s +ℤ (pos e.amount_minor *ℤ cash_ledger_entry_direction e.type))
    ∙ signed e.type e.amount_minor (total_in es) (total_out es) s

-- The expected closing cash is the opening float, the payments received and the manual cash in, less
-- the manual cash out, the safe drops and the refunds paid.
pub expected_closing_cash_lem :
    (es : List CashLedgerEntry)
    → calculate_expected_closing_cash_minor es ≡ pos (total_in es) -ℤ pos (total_out es)
unfolding calculate_expected_closing_cash_minor
expected_closing_cash_lem es = expected_from_lem es (pos 0) ∙ grind int_laws
