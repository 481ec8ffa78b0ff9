-- ===== src/Commissions/Allocation/Exact.antt =====
-- commission-adjustment-allocation.util.ts: the whole allocation against its totals.
use kora_os.Common.{
  ℕ, suc, ◌<◌, ◌≡◌, refl, sym, ap, ◌∙◌, subst, true, false, List, [], ◌∷◌, map, length, All, ok,
  arith, includes, ◌==◌,
}
use kora_os.Common.Int.{ℤ, pos, ◌+ℤ◌, ◌-ℤ◌, int_laws}
use kora_os.Commissions.Allocation.{
  AllocationLine, Share, AmountMap, empty_map, share_of, sum_floors, rank, floor_entries,
  gross_total, allocate_proportionally, allocate_adjustments_across_lines,
}
use kora_os.Commissions.Allocation.Floor.{floors_short}
use kora_os.Commissions.Allocation.Totals.{
  total_over, ids_of, share_ids, IsDistinct, HasEntries, total_over-floor_entries,
  HasEntries-floor_entries, All-rank, length-rank, raise_units_lem, net_entries_lem,
}

share_ids-share_of :
    (adj total : ℤ) (lines : List AllocationLine)
    → share_ids (map (share_of adj total) lines) ≡ ids_of lines
unfolding share_of
share_ids-share_of adj total [] = refl
share_ids-share_of adj total (line ∷ lines) =
    ap (◌∷◌ line.line_id) (share_ids-share_of adj total lines)

length-shares :
    (adj total : ℤ) (lines : List AllocationLine)
    → length (map (share_of adj total) lines) ≡ length lines
length-shares adj total [] = refl
length-shares adj total (line ∷ lines) = ap suc (length-shares adj total lines)

-- Each share's line is one of those that the list holds.
weaken :
    (id : ℕ) (ids : List ℕ) (ss : List Share)
    → All (λ s. includes ids s.line.line_id ≡ true) ss
    → All (λ s. includes (id ∷ ids) s.line.line_id ≡ true) ss
weaken id ids [] a = tt
weaken id ids (s ∷ ss) a = (ground arith, weaken id ids ss a.1)

among : (ss : List Share) → All (λ s. includes (share_ids ss) s.line.line_id ≡ true) ss
among [] = tt
among (s ∷ ss) = (ground arith, weaken s.line.line_id (share_ids ss) ss (among ss))

proportionally_exact :
    (lines : List AllocationLine) (adj : ℤ)
    → 0 < gross_total lines
    → IsDistinct (ids_of lines)
    → (net : AmountMap) × (allocate_proportionally lines adj ≡ ok net)
      × (total_over (ids_of lines) net ≡ pos (gross_total lines) +ℤ adj)
      × HasEntries (ids_of lines) net
unfolding allocate_proportionally
proportionally_exact lines adj h d =
    let total = pos (gross_total lines) in
    let ss = map (share_of adj total) lines in
    let same = share_ids-share_of adj total lines in
    let ds = subst IsDistinct (sym same) d in
    let (units, short, few) = floors_short adj lines h in
    let floors = floor_entries ss empty_map in
    let (raised, ran, all_units, has) =
      raise_units_lem (share_ids ss) units (rank ss) floors ds (All-rank _ ss (among ss))
        (HasEntries-floor_entries ss empty_map ds)
        (omega (arith, length-rank ss, length-shares adj total lines)) in
    let (net, done, sums, other, entries) =
      net_entries_lem lines raised empty_map d (subst (λ ids. HasEntries ids raised) same has) in
    let over : total_over (ids_of lines) raised ≡ sum_floors ss +ℤ pos units =
      ap (λ ids. total_over ids raised) (sym same)
      ∙ all_units
      ∙ ap (λ z. z +ℤ pos units) (total_over-floor_entries ss empty_map ds) in
    (
      net,
      rw (short, ran) done,
      sums ∙ rw over (regroup total (sum_floors ss) adj units short),
      entries,
    )
  where
    regroup :
        (total floors adjustment : ℤ) (units : ℕ)
        → adjustment -ℤ floors ≡ pos units
        → total +ℤ (floors +ℤ pos units) ≡ total +ℤ adjustment
    regroup total floors adjustment units e = rw (sym e) (omega int_laws)

-- For lines with distinct identifiers and a positive total the allocation succeeds for every
-- adjustment, discount or surcharge; each line has a net amount, and these add up to exactly the
-- gross total plus the adjustment.
pub allocate_adjustments_exact :
    (lines : List AllocationLine) (adj : ℤ)
    → 0 < gross_total lines
    → IsDistinct (ids_of lines)
    → (net : AmountMap) × (allocate_adjustments_across_lines lines adj ≡ ok net)
      × (total_over (ids_of lines) net ≡ pos (gross_total lines) +ℤ adj)
      × HasEntries (ids_of lines) net
unfolding allocate_adjustments_across_lines
allocate_adjustments_exact [] adj h d = absurd (omega arith)
allocate_adjustments_exact (line ∷ lines) adj h d =
    let (net, ran, total, entries) = proportionally_exact (line ∷ lines) adj h d in
    let nonzero : (gross_total (line ∷ lines) == 0) ≡ false = ground arith in
    (net, rw nonzero ran, total, entries)
