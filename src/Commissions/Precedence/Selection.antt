-- ===== src/Commissions/Precedence/Selection.antt =====
-- commission-rule-precedence.util.ts: the selected rule among those that apply.
use kora_os.Common.{
  ℕ, ◌≤◌, ◌<◌, ◌≡◌, refl, ap, sym, subst, ◌⊎◌, inl, inr, Bool, true, false, ◌&&◌, Option, none,
  some, List, [], ◌∷◌, ◌++◌, All, is_some, arith, Bool-cases,
}
use kora_os.Common.Int.{pos, negsuc, ltb_ℤ}
use kora_os.Commissions.Precedence.{
  CandidateCommissionRule, CommissionScope, passes, score, select_loop, select_most_specific_rule,
}

-- Which of the three scope columns the rule sets.
abbrev pub shape : CandidateCommissionRule → Bool × Bool × Bool
shape rule = (is_some rule.staff_profile_id, is_some rule.service_id, is_some rule.branch_id)

-- Rules of equal score set the same columns: the eight levels of precedence never tie.
pub shape-eq_of_score : (a b : CandidateCommissionRule) → score a ≡ score b → shape a ≡ shape b
unfolding score
shape-eq_of_score a b h = ground arith

module _ (scope : CommissionScope) (currency : ℕ) where
  -- A rule of the list that applies has at most, or less than, the given score.
  abbrev pub AtMost : ℕ → CandidateCommissionRule → Type 0
  AtMost s rule = passes scope currency rule ≡ true → score rule ≤ s

  abbrev pub Less : ℕ → CandidateCommissionRule → Type 0
  Less s rule = passes scope currency rule ≡ true → score rule < s

  abbrev pub IsSelected : List CandidateCommissionRule → CandidateCommissionRule → Type 0
  IsSelected rules rule =
      (before : List CandidateCommissionRule) × (after : List CandidateCommissionRule) × (rules
        ≡ before ++ rule ∷ after)
      × (passes scope currency rule ≡ true)
      × All (Less (score rule)) before
      × All (AtMost (score rule)) after

  -- No rule applies.
  abbrev pub NoneApplies : List CandidateCommissionRule → Type 0
  NoneApplies rules = All (λ rule. passes scope currency rule ≡ false) rules

  -- What the loop finds in the rest of the list, given the best rule so far: that rule, or a better
  -- one.
  abbrev Finds :
      CandidateCommissionRule
      → List CandidateCommissionRule
      → Option CandidateCommissionRule
      → Type 0
  Finds best rules found =
      ((found ≡ some best) × All (AtMost (score best)) rules)
      ⊎ ((rule : CandidateCommissionRule) × (found ≡ some rule)
          × (score best < score rule)
          × IsSelected rules rule)

  improve :
      (best r : CandidateCommissionRule) (rules : List CandidateCommissionRule)
      (found : Option CandidateCommissionRule)
      → (passes scope currency r && ltb_ℤ (pos (score best)) (pos (score r))) ≡ true
      → Finds r rules found
      → Finds best (r ∷ rules) found
  improve best r rules found e (inl (kept, most)) =
      inr (r, kept, ground arith, ([], rules, refl, ground arith, tt, most))
  improve best r rules found e (inr (rule, is, lt, (before, after, split, applies, less, most))) =
      inr (
        rule,
        is,
        ground arith,
        (r ∷ before, after, ap (◌∷◌ r) split, applies, ((λ _. lt), less), most),
      )

  stay :
      (best r : CandidateCommissionRule) (rules : List CandidateCommissionRule)
      (found : Option CandidateCommissionRule)
      → (passes scope currency r && ltb_ℤ (pos (score best)) (pos (score r))) ≡ false
      → Finds best rules found
      → Finds best (r ∷ rules) found
  stay best r rules found e (inl (kept, most)) = inl (kept, ((λ p. ground arith), most))
  stay best r rules found e (inr (rule, is, lt, (before, after, split, applies, less, most))) =
      inr (
        rule,
        is,
        lt,
        (r ∷ before, after, ap (◌∷◌ r) split, applies, ((λ p. ground arith), less), most),
      )

  loop_Finds :
      (rules : List CandidateCommissionRule) (best : CandidateCommissionRule)
      → Finds best rules (select_loop scope currency rules (some best) (pos (score best)))
  unfolding select_loop
  loop_Finds [] best = inl (refl, tt)
  loop_Finds (r ∷ rules) best =
      elim (Bool-cases (passes scope currency r && ltb_ℤ (pos (score best)) (pos (score r)))) [
        | inl e ↦ rw e (improve best r rules _ e (loop_Finds rules r))
        | inr e ↦ rw e (stay best r rules _ e (loop_Finds rules best))
      ]

  -- What a rule that does not apply leaves of the result.
  abbrev Selects : List CandidateCommissionRule → Option CandidateCommissionRule → Type 0
  Selects rules found =
      ((found ≡ none) × NoneApplies rules)
      ⊎ ((rule : CandidateCommissionRule) × (found ≡ some rule) × IsSelected rules rule)

  skip :
      (r : CandidateCommissionRule) (rules : List CandidateCommissionRule)
      (found : Option CandidateCommissionRule)
      → passes scope currency r ≡ false
      → Selects rules found
      → Selects (r ∷ rules) found
  skip r rules found e (inl (is, nothing)) = inl (is, (e, nothing))
  skip r rules found e (inr (rule, is, (before, after, split, applies, less, most))) =
      inr (rule, is, (r ∷ before, after, ap (◌∷◌ r) split, applies, ((λ p. cc), less), most))

  first :
      (r : CandidateCommissionRule) (rules : List CandidateCommissionRule)
      (found : Option CandidateCommissionRule)
      → passes scope currency r ≡ true
      → Finds r rules found
      → Selects (r ∷ rules) found
  first r rules found e (inl (kept, most)) = inr (r, kept, ([], rules, refl, e, tt, most))
  first r rules found e (inr (rule, is, lt, (before, after, split, applies, less, most))) =
      inr (rule, is, (r ∷ before, after, ap (◌∷◌ r) split, applies, ((λ _. lt), less), most))

  step_first :
      (r : CandidateCommissionRule) (rules : List CandidateCommissionRule)
      → passes scope currency r ≡ true
      → select_most_specific_rule scope currency (r ∷ rules)
        ≡ select_loop scope currency rules (some r) (pos (score r))
  unfolding select_most_specific_rule select_loop
  step_first r rules e =
      let low : ltb_ℤ (negsuc 0) (pos (score r)) ≡ true = ground arith in rw (e, low)

  step_skip :
      (r : CandidateCommissionRule) (rules : List CandidateCommissionRule)
      → passes scope currency r ≡ false
      → select_most_specific_rule scope currency (r ∷ rules)
        ≡ select_most_specific_rule scope currency rules
  unfolding select_most_specific_rule select_loop
  step_skip r rules e = rw e

  -- Either no rule of the list applies and none is selected, or the selected rule is one of the list
  -- that applies, with a score above that of every applicable rule before it and at least that of
  -- every applicable rule after it.
  pub select_most_specific_rule_lem :
      (rules : List CandidateCommissionRule)
      → ((select_most_specific_rule scope currency rules ≡ none) × NoneApplies rules)
        ⊎ ((rule : CandidateCommissionRule) × (select_most_specific_rule scope currency rules
              ≡ some rule)
            × IsSelected rules rule)
  unfolding select_most_specific_rule select_loop
  select_most_specific_rule_lem [] = inl (refl, tt)
  select_most_specific_rule_lem (r ∷ rules) = elim (Bool-cases (passes scope currency r)) [
    | inl e ↦
        subst (Selects (r ∷ rules)) (sym (step_first r rules e))
          (first r rules _ e (loop_Finds rules r))
    | inr e ↦
        subst (Selects (r ∷ rules)) (sym (step_skip r rules e))
          (skip r rules _ e (select_most_specific_rule_lem rules))
  ]
