-- ===== src/BalanceQuality/Vintage.antt =====
-- What a balance check that is presented as passed or failed rests on.
use zion_terminal.Base.{
  Bool, true, false, not, ◌&&◌, ◌||◌, Option, none, some, List, [], ◌∷◌, String, str_eq, str_eq_iff,
  ◌≡◌, refl, ap, sym, ◌∙◌, arith, Option-cases, All, if◌then◌else◌, Bool-cases, inl, inr,
}
use mathlib.Core.Path.{subst}
use zion_terminal.BalanceQuality.Guard.{
  Observation, BalanceCheck, selected_rows, same_unit, in_scope, same_vintage, pair_reason,
  unavailable_reason, withheld, is_decided, guard_selected, guard_check, balance_checks, version,
}

-- Two totals of one filing, in one unit, at the end of the period.
pub record Comparable (period : String) (a b : Observation) : Type 0 where
  pub same_accession : a.accession ≡ b.accession
  pub same_form : a.form ≡ b.form
  pub same_available_at : a.available_at ≡ b.available_at
  pub same_unit_of : a.unit ≡ b.unit
  pub same_currency : a.currency ≡ b.currency
  pub no_start : (a.period_start ≡ none) × (b.period_start ≡ none)
  pub at_end : (a.period_end ≡ some period) × (b.period_end ≡ some period)

-- A check that is presented as decided rests on exactly two totals that are comparable.
abbrev pub Sourced : List Observation → BalanceCheck → Type 0
Sourced rows check =
    is_decided check.status ≡ true
    → (a : Observation) × (b : Observation) × (selected_rows rows check.source_observation_ids
        ≡ a ∷ b ∷ [])
      × Comparable check.period_end a b

scope_lem :
    (period : String) (row : Observation)
    → in_scope period row ≡ true
    → (row.period_start ≡ none) × (row.period_end ≡ some period)
unfolding in_scope
scope_lem period row h = scope_of row.period_start row.period_end h
  where
    scope_of :
        (s e : Option String)
        → (elim s as (λ x. Bool) [ some start ↦ false | none ↦ true ]
            && elim e as (λ x. Bool) [ none ↦ false | some ending ↦ str_eq ending period ])
          ≡ true
        → (s ≡ none) × (e ≡ some period)
    scope_of none (some t) k = (refl, ap some ((str_eq_iff t period).0 k))
    scope_of none none k = cc
    scope_of (some t) e k = cc

-- What is left of a test that gives a reason.
passes_on :
    (b : Bool) (why : String) (rest : Option String)
    → (if b then some why else rest) ≡ none
    → (b ≡ false) × (rest ≡ none)
passes_on true why rest h = cc
passes_on false why rest h = (refl, h)

not_or : (a b : Bool) → (a || not b) ≡ false → b ≡ true
not_or a b h = ground arith

not_and : (a b : Bool) → not (a && b) ≡ false → (a ≡ true) × (b ≡ true)
not_and a b h = ground arith

negated : (a : Bool) → not a ≡ false → a ≡ true
negated a h = ground arith

both : (a b : Bool) → (a && b) ≡ true → (a ≡ true) × (b ≡ true)
both a b h = ground arith

pair_reason-Comparable :
    (period : String) (a b : Observation) → pair_reason period a b ≡ none → Comparable period a b
unfolding pair_reason same_unit same_vintage
pair_reason-Comparable period a b h =
    let (present, h1) = passes_on _ _ _ h in
    let (units, h2) = passes_on _ _ _ h1 in
    let (scopes, h3) = passes_on _ _ _ h2 in
    let (vintages, h4) = passes_on _ _ _ h3 in
    let (u, c) = both _ _ (not_or _ _ units) in
    let (first, second) = not_and _ _ scopes in
    let (acc, rest) = both _ _ (negated _ vintages) in
    let (f, t) = both _ _ rest in
    let (sa, ea) = scope_lem period a first in
    let (sb, eb) = scope_lem period b second in
    record {
      same_accession = (str_eq_iff a.accession b.accession).0 acc;
      same_form = (str_eq_iff a.form b.form).0 f;
      same_available_at = (str_eq_iff a.available_at b.available_at).0 t;
      same_unit_of = (str_eq_iff a.unit b.unit).0 u;
      same_currency = (str_eq_iff a.currency b.currency).0 c;
      no_start = (sa, sb);
      at_end = (ea, eb);
    }

-- The rows that give no reason are two comparable ones.
abbrev Pair : String → List Observation → Type 0
Pair period selected =
    (a : Observation) × (b : Observation) × (selected ≡ a ∷ b ∷ []) × Comparable period a b

reason-Pair :
    (period : String) (selected : List Observation)
    → unavailable_reason period selected ≡ none
    → Pair period selected
unfolding unavailable_reason
reason-Pair period (a ∷ b ∷ []) h = (a, b, refl, pair_reason-Comparable period a b h)
reason-Pair period [] h = cc
reason-Pair period (a ∷ []) h = cc
reason-Pair period (a ∷ b ∷ c ∷ rows) h = cc

guarded :
    (check : BalanceCheck) (selected : List Observation)
    → (o : Option String) → unavailable_reason check.period_end selected ≡ o
    → is_decided
        (elim o as (λ x. BalanceCheck) [
          | some why ↦ withheld check why selected
          | none ↦ record check { balance_quality_version = some version }
        ]).status
      ≡ true
    → Pair check.period_end selected
unfolding withheld
guarded check selected none e h = reason-Pair check.period_end selected e
guarded check selected (some why) e h = absurd (never h)
  where
    never : is_decided "UNAVAILABLE" ≡ true → ⊥
    never k = cc

guard_selected-Pair :
    (check : BalanceCheck) (selected : List Observation)
    → is_decided (guard_selected check selected).status ≡ true
    → Pair check.period_end selected
unfolding guard_selected
guard_selected-Pair check selected h = guarded check selected _ refl h

-- The guard changes neither the sources nor the period of a check.
same_sources :
    (check : BalanceCheck) (selected : List Observation)
    → ((guard_selected check selected).source_observation_ids ≡ check.source_observation_ids)
      × ((guard_selected check selected).period_end ≡ check.period_end)
unfolding guard_selected withheld
same_sources check selected = elim (Option-cases (unavailable_reason check.period_end selected)) [
  | inl e ↦ rw (e, guard_selected) (refl, refl)
  | inr (why, e) ↦ rw (e, guard_selected) (refl, refl)
]

guard_check-Sourced :
    (rows : List Observation) (check : BalanceCheck) → Sourced rows (guard_check rows check)
unfolding guard_check
guard_check-Sourced rows check = elim (Bool-cases (is_decided check.status)) [
  | inl decided ↦
      let selected = selected_rows rows check.source_observation_ids in
      let (ids, period) = same_sources check selected in
      rw decided (λ h.
        let (a, b, e, c) = guard_selected-Pair check selected h in
        (a, b, ap (selected_rows rows) ids ∙ e, subst (λ p. Comparable p a b) (sym period) c))
  | inr other ↦ rw other (λ h. absurd (never (sym other ∙ h)))
]
  where
    never : false ≡ true → ⊥
    never k = cc

-- Every balance check that is presented as passed or failed rests on exactly two totals, which come
-- from one filing (the same accession, form and availability), are in one unit and currency, and are
-- at the end of the period of the check; whatever the checks were before.
pub balance_checks-Sourced :
    (rows : List Observation) (checks : List BalanceCheck)
    → All (Sourced rows) (balance_checks rows checks)
unfolding balance_checks
balance_checks-Sourced rows [] = tt
balance_checks-Sourced rows (check ∷ checks) =
    (guard_check-Sourced rows check, balance_checks-Sourced rows checks)
