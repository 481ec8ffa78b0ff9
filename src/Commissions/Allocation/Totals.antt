-- ===== src/Commissions/Allocation/Totals.antt =====
-- Sums over a map of amounts, and what each loop of the allocation does to them.
use kora_os.Common.{
  ℕ, zero, suc, ◌≤◌, ◌≡◌, refl, ◌≢◌, ap, ◌∙◌, subst, true, Option, none, some, List, [], ◌∷◌, map,
  length, All, ◌==◌, arith, ok, Bool-cases, inl, inr, includes,
}
use kora_os.Common.Int.{ℤ, pos, ◌+ℤ◌, int_laws}
use kora_os.Commissions.Allocation.{
  AllocationLine, Share, AmountMap, put, sum_floors, ranks_before, insert_ranked, rank,
  floor_entries, raise_entry, raise_units, net_entry, net_entries, gross_total,
}

abbrev pub value_or_zero : Option ℤ → ℤ
value_or_zero none = pos 0
value_or_zero (some v) = v

-- The sum of the entries of the given lines.
unfoldable pub total_over : List ℕ → AmountMap → ℤ
total_over [] m = pos 0
total_over (id ∷ ids) m = value_or_zero (m id) +ℤ total_over ids m

abbrev pub ids_of : List AllocationLine → List ℕ
ids_of = map (λ line. line.line_id)

abbrev pub share_ids : List Share → List ℕ
share_ids = map (λ s. s.line.line_id)

-- The identifier is none of the list.
abbrev pub IsFresh : ℕ → List ℕ → Type 0
IsFresh id [] = Unit {0}
IsFresh id (x ∷ xs) = (id ≢ x) × IsFresh id xs

abbrev pub IsDistinct : List ℕ → Type 0
IsDistinct [] = Unit {0}
IsDistinct (x ∷ xs) = IsFresh x xs × IsDistinct xs

-- Every line of the list has an entry.
abbrev pub HasEntries : List ℕ → AmountMap → Type 0
HasEntries [] m = Unit {0}
HasEntries (id ∷ ids) m = (m id ≢ none) × HasEntries ids m

total_over-put_fresh :
    (ids : List ℕ) (m : AmountMap) (id : ℕ) (v : ℤ)
    → IsFresh id ids
    → total_over ids (put m id v) ≡ total_over ids m
unfolding total_over
total_over-put_fresh [] m id v f = refl
total_over-put_fresh (x ∷ xs) m id v f = ground (arith, total_over-put_fresh xs m id v f.1)

HasEntries-put :
    (ids : List ℕ) (m : AmountMap) (id : ℕ) (v : ℤ) → HasEntries ids m → HasEntries ids (put m id v)
HasEntries-put [] m id v h = tt
HasEntries-put (x ∷ xs) m id v h = (ground arith, HasEntries-put xs m id v h.1)

floor_entries-fresh :
    (ss : List Share) (m : AmountMap) (id : ℕ)
    → IsFresh id (share_ids ss)
    → floor_entries ss m id ≡ m id
unfolding floor_entries
floor_entries-fresh [] m id f = refl
floor_entries-fresh (s ∷ ss) m id f =
    ground (arith, floor_entries-fresh ss (put m s.line.line_id s.floor_share) id f.1)

pub total_over-floor_entries :
    (ss : List Share) (m : AmountMap)
    → IsDistinct (share_ids ss)
    → total_over (share_ids ss) (floor_entries ss m) ≡ sum_floors ss
unfolding total_over floor_entries sum_floors
total_over-floor_entries [] m d = refl
total_over-floor_entries (s ∷ ss) m d =
    let m' = put m s.line.line_id s.floor_share in
    let here : m' s.line.line_id ≡ some s.floor_share = ground arith in
    rw (floor_entries-fresh ss m' s.line.line_id d.0, here, total_over-floor_entries ss m' d.1)

pub HasEntries-floor_entries :
    (ss : List Share) (m : AmountMap)
    → IsDistinct (share_ids ss)
    → HasEntries (share_ids ss) (floor_entries ss m)
unfolding floor_entries
HasEntries-floor_entries [] m d = tt
HasEntries-floor_entries (s ∷ ss) m d =
    let m' = put m s.line.line_id s.floor_share in
    (
      ground (arith, floor_entries-fresh ss m' s.line.line_id d.0),
      HasEntries-floor_entries ss m' d.1,
    )

-- The share's line is one of the list.
abbrev IsAmong : List ℕ → Share → Type 0
IsAmong ids s = includes ids s.line.line_id ≡ true

present : (o : Option ℤ) → o ≢ none → (v : ℤ) × (o ≡ some v)
present none ne = absurd (ne refl)
present (some v) ne = (v, refl)

entry_of_HasEntries :
    (ids : List ℕ) (m : AmountMap) (id : ℕ)
    → includes ids id ≡ true
    → HasEntries ids m
    → (v : ℤ) × (m id ≡ some v)
entry_of_HasEntries [] m id i h = cc
entry_of_HasEntries (x ∷ xs) m id i h = elim (Bool-cases (x == id)) [
  | inl e ↦ present (m id) (ground arith)
  | inr e ↦ entry_of_HasEntries xs m id (ground arith) h.1
]

total_over-put_raised :
    (ids : List ℕ) (m : AmountMap) (id : ℕ) (v : ℤ)
    → IsDistinct ids
    → includes ids id ≡ true
    → m id ≡ some v
    → total_over ids (put m id (v +ℤ pos 1)) ≡ total_over ids m +ℤ pos 1
unfolding total_over
total_over-put_raised [] m id v d i e = cc
total_over-put_raised (x ∷ xs) m id v d i e = elim (Bool-cases (x == id)) [
  | inl same ↦
      let is_x : x ≡ id = ground arith in
      let put_here : put m id (v +ℤ pos 1) x ≡ some (v +ℤ pos 1) = ground arith in
      let was : m x ≡ some v = ap m is_x ∙ e in
      rw
        (
          put_here,
          was,
          total_over-put_fresh xs m id (v +ℤ pos 1) (subst (λ y. IsFresh y xs) is_x d.0),
        )
        (omega int_laws)
  | inr other ↦
      let put_there : put m id (v +ℤ pos 1) x ≡ m x = ground arith in
      rw (put_there, total_over-put_raised xs m id v d.1 (ground arith) e) (omega int_laws)
]

All-insert_ranked :
    (P : Share → Type 0) (s : Share) (ss : List Share) → P s → All P ss → All P (insert_ranked s ss)
unfolding insert_ranked
All-insert_ranked P s [] p a = (p, tt)
All-insert_ranked P s (x ∷ xs) p a = elim (Bool-cases (ranks_before s x)) [
  | inl e ↦ rw e (p, a)
  | inr e ↦ rw e (a.0, All-insert_ranked P s xs p a.1)
]

pub All-rank : (P : Share → Type 0) (ss : List Share) → All P ss → All P (rank ss)
unfolding rank
All-rank P [] a = tt
All-rank P (s ∷ ss) a = All-insert_ranked P s (rank ss) a.0 (All-rank P ss a.1)

length-insert_ranked : (s : Share) (ss : List Share) → length (insert_ranked s ss) ≡ suc (length ss)
unfolding insert_ranked
length-insert_ranked s [] = refl
length-insert_ranked s (x ∷ xs) = ground (arith, length-insert_ranked s xs)

pub length-rank : (ss : List Share) → length (rank ss) ≡ length ss
unfolding rank
length-rank [] = refl
length-rank (s ∷ ss) = omega (arith, length-insert_ranked s (rank ss), length-rank ss)

-- Enough ranked shares: the loop hands out every unit.
pub raise_units_lem :
    (ids : List ℕ) (units : ℕ) (ranked : List Share) (m : AmountMap)
    → IsDistinct ids
    → All (IsAmong ids) ranked
    → HasEntries ids m
    → units ≤ length ranked
    → (m' : AmountMap) × (raise_units units ranked m ≡ ok m')
      × (total_over ids m' ≡ total_over ids m +ℤ pos units)
      × HasEntries ids m'
unfolding raise_units raise_entry
raise_units_lem ids zero ranked m d a h l = (m, refl, omega int_laws, h)
raise_units_lem ids (suc units) [] m d a h l = absurd (omega arith)
raise_units_lem ids (suc units) (s ∷ ranked) m d a h l =
    let id = s.line.line_id in
    let (v, e) = entry_of_HasEntries ids m id a.0 h in
    let raised = put m id (v +ℤ pos 1) in
    let (m', ran, total, has) =
      raise_units_lem ids units ranked raised d a.1 (HasEntries-put ids m id (v +ℤ pos 1) h)
        (omega arith) in
    (
      m',
      rw (e, raise_entry) ran,
      total ∙ rw (total_over-put_raised ids m id v d a.0 e) (omega int_laws),
      has,
    )

pub net_entries_lem :
    (lines : List AllocationLine) (allocated net : AmountMap)
    → IsDistinct (ids_of lines)
    → HasEntries (ids_of lines) allocated
    → (net' : AmountMap) × (net_entries lines allocated net ≡ ok net')
      × (total_over (ids_of lines) net'
          ≡ pos (gross_total lines) +ℤ total_over (ids_of lines) allocated)
      × ((id : ℕ) → IsFresh id (ids_of lines) → net' id ≡ net id)
      × HasEntries (ids_of lines) net'
unfolding net_entries net_entry total_over
net_entries_lem [] allocated net d h = (net, refl, omega int_laws, (λ id f. refl), tt)
net_entries_lem (line ∷ lines) allocated net d h =
    let id = line.line_id in
    let (v, e) = present (allocated id) h.0 in
    let here = pos line.gross_amount_minor +ℤ v in
    let (net', ran, total, other, has) =
      net_entries_lem lines allocated (put net id here) d.1 h.1 in
    let entry : net' id ≡ some here = other id d.0 ∙ ground arith in
    (
      net',
      rw (e, net_entry) ran,
      rw (entry, e, total) (omega int_laws),
      (λ j f. other j f.1 ∙ ground (arith, f.0)),
      (rw entry (λ same. cc), has),
    )
