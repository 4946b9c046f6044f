-- ===== src/SecEngine/Anchored.antt =====
-- sec_engine.py: the screening of overlaps and the figures at the ends of periods add nothing to `history`
-- that was not available at its cutoff.
use zion_terminal.Base.{
  ℕ, Option, none, some, List, [], ◌∷◌, ◌++◌, String, All, All-keep_of, keep, if_both,
}
use Prim.Native.String.{◌++◌ as str_append}
use zion_terminal.Base.Result.{ok, Ensures, Ensures-ok, Ensures-if, Ensures-bind}
use zion_terminal.SecEngine.Registry.{is_quarantined}
use zion_terminal.SecEngine.Derivation.{Figure, calculate_figure, sum, subtract}
use zion_terminal.SecEngine.Sources.{Sources, Gap, Intervals}
use zion_terminal.SecEngine.Periods.{
  Slot, Table, slot_at, Entries, negative_value, has_value, ambiguous, held,
}
use zion_terminal.SecEngine.Overlap.{
  overlaps, withhold_from, rests_on, withhold_derived, Screened, screen,
}
use zion_terminal.SecEngine.Anchors.{
  is_instant_of, end_key, add_cash, component, add_component, components, add_debt, flow_key,
  add_free_cash_flow, add_anchor_figures, add_all,
}
use zion_terminal.SecEngine.History.{complete}
use zion_terminal.SecEngine.Known.{
  Known, calculate_figure-Known, KnownSlot, KnownTable, KnownAt, slot_at-Known, assign-Known,
}
use zion_terminal.SecEngine.Lookahead.{KnownProgress, KnownEntries}

module _ (cutoff : String) where
  withhold_from-Known :
      (table rest : Table) → KnownTable cutoff rest → KnownTable cutoff (withhold_from table rest)
  unfolding withhold_from
  withhold_from-Known table [] h = tt
  withhold_from-Known table ((k, slot) ∷ rest) h = (
    if_both (KnownSlot cutoff) (overlaps table k slot) ambiguous slot tt h.0,
    withhold_from-Known table rest h.1,
  )

  withhold_derived-Known :
      (ids : List String) (rest : Table)
      → KnownTable cutoff rest
      → KnownTable cutoff (withhold_derived ids rest)
  unfolding withhold_derived
  withhold_derived-Known ids [] h = tt
  withhold_derived-Known ids ((k, slot) ∷ rest) h = (
    if_both (KnownSlot cutoff) (rests_on ids slot) ambiguous slot tt h.0,
    withhold_derived-Known ids rest h.1,
  )

  add_cash-Known :
      (ending : ℕ) (found : List Figure) (table : Table)
      → All (Known cutoff) found
      → KnownTable cutoff table
      → KnownTable cutoff (add_cash ending found table)
  unfolding add_cash
  add_cash-Known ending [] table k h = h
  add_cash-Known ending (p ∷ q ∷ found) table k h = h
  add_cash-Known ending (p ∷ []) table k h =
      if_both (KnownTable cutoff) (has_value p) _ table
        (assign-Known cutoff (end_key "cash" ending) (held p) table k.0 h) h

  abbrev KnownParts : Option (List Figure) → Type 0
  KnownParts none = Unit
  KnownParts (some ps) = All (Known cutoff) ps

  add_debt-Known :
      (cik : String) (ending : ℕ) (parts : Option (List Figure)) (table : Table)
      → KnownParts parts
      → KnownTable cutoff table
      → Ensures (KnownTable cutoff) (add_debt cik ending parts table)
  unfolding add_debt
  add_debt-Known cik ending none table k h = Ensures-ok table h
  add_debt-Known cik ending (some []) table k h = Ensures-ok table h
  add_debt-Known cik ending (some (p ∷ ps)) table k h =
      Ensures-if (is_quarantined cik) (ok table) _ (λ e. Ensures-ok table h)
        (λ e. Ensures-bind (calculate_figure sum "total_debt" none ending p ps) _ (λ debt d.
          Ensures-ok _ (
            assign-Known cutoff (end_key "total_debt" ending) (held debt) table
              (calculate_figure-Known cutoff sum "total_debt" none ending p ps d k.0 k.1) h)))

  add_free_cash_flow-Known :
      (start ending : ℕ) (cfo capex : Option Slot) (table : Table)
      → KnownAt cutoff cfo
      → KnownAt cutoff capex
      → KnownTable cutoff table
      → Ensures (KnownTable cutoff) (add_free_cash_flow start ending cfo capex table)
  unfolding add_free_cash_flow
  add_free_cash_flow-Known start ending none capex table k l h = Ensures-ok table h
  add_free_cash_flow-Known start ending (some ambiguous) capex table k l h = Ensures-ok table h
  add_free_cash_flow-Known start ending (some (held a)) none table k l h = Ensures-ok table h
  add_free_cash_flow-Known start ending (some (held a)) (some ambiguous) table k l h =
      Ensures-ok table h
  add_free_cash_flow-Known start ending (some (held a)) (some (held b)) table k l h =
      Ensures-if (negative_value b.value_decimal) (ok table) _ (λ e. Ensures-ok table h)
        (λ e.
          Ensures-bind (calculate_figure subtract "free_cash_flow" (some start) ending a (b ∷ [])) _
            (λ figure d. Ensures-ok _ (
              assign-Known cutoff (flow_key "free_cash_flow" start ending) (held figure) table
                (calculate_figure-Known cutoff subtract "free_cash_flow" (some start) ending a
                  (b ∷ []) d k (l, tt))
                h)))

  abbrev KnownPart : Option Figure → Type 0
  KnownPart none = Unit
  KnownPart (some p) = Known cutoff p

  component-Known : (found : List Figure) → All (Known cutoff) found → KnownPart (component found)
  unfolding component
  component-Known [] k = tt
  component-Known (p ∷ q ∷ found) k = tt
  component-Known (p ∷ []) k =
      if_both KnownPart (negative_value p.value_decimal) none (some p) tt k.0

  add_component-Known :
      (p : Option Figure) (ps : Option (List Figure))
      → KnownPart p
      → KnownParts ps
      → KnownParts (add_component p ps)
  unfolding add_component
  add_component-Known none none k ks = tt
  add_component-Known none (some ps) k ks = tt
  add_component-Known (some p) none k ks = tt
  add_component-Known (some p) (some ps) k ks = (k, ks)

  components-Known :
      (selected : List Figure) (ending : ℕ) (tags : List String)
      → All (Known cutoff) selected
      → KnownParts (components selected ending tags)
  unfolding components
  components-Known selected ending [] k = tt
  components-Known selected ending (tag ∷ tags) k =
      add_component-Known _ (components selected ending tags)
        (component-Known _ (
          All-keep_of (Known cutoff) has_value _ (
            All-keep_of (Known cutoff) (is_instant_of (str_append "debt_component:" tag) ending)
              selected k)))
        (components-Known selected ending tags k)

  add_anchor_figures-Known :
      (src : Sources) (selected : List Figure) (start ending : ℕ) (s : Entries)
      → All (Known cutoff) selected
      → KnownEntries cutoff s
      → Ensures (KnownEntries cutoff) (add_anchor_figures src selected start ending s)
  unfolding add_anchor_figures
  add_anchor_figures-Known src selected start ending s k h =
      let table = add_cash ending (keep (is_instant_of "cash" ending) selected) s.table in
      let cash =
        add_cash-Known ending _ s.table
          (All-keep_of (Known cutoff) (is_instant_of "cash" ending) selected k) h in
      Ensures-bind (add_debt src.cik ending (components selected ending src.debt_components) table)
        _
        (λ t e.
          let debt =
            (add_debt-Known src.cik ending (components selected ending src.debt_components) table
                (components-Known selected ending src.debt_components k) cash).returned
              t e in
          Ensures-bind
            (add_free_cash_flow start ending
              (slot_at (flow_key "operating_cash_flow" start ending) t)
              (slot_at (flow_key "capital_expenditures" start ending) t) t)
            _
            (λ u d. Ensures-ok _ (
              (add_free_cash_flow-Known start ending
                  (slot_at (flow_key "operating_cash_flow" start ending) t)
                  (slot_at (flow_key "capital_expenditures" start ending) t) t
                  (slot_at-Known cutoff _ t debt) (slot_at-Known cutoff _ t debt) debt).returned
                u d)))

  add_all-Known :
      (src : Sources) (selected : List Figure) (xs : Intervals) (s : Entries)
      → All (Known cutoff) selected
      → KnownEntries cutoff s
      → Ensures (KnownEntries cutoff) (add_all src selected xs s)
  unfolding add_all
  add_all-Known src selected [] s k h = Ensures-ok s h
  add_all-Known src selected ((start, ending) ∷ rest) s k h =
      Ensures-bind (add_anchor_figures src selected start ending s) _ (λ next e.
        add_all-Known src selected rest next k
          ((add_anchor_figures-Known src selected start ending s k h).returned next e))

  abbrev pub KnownScreened : Screened → Type 0
  KnownScreened s = KnownTable cutoff s.annual × KnownTable cutoff s.quarterly

  pub screen-Known :
      (years quarters : Table)
      → KnownTable cutoff years
      → KnownTable cutoff quarters
      → KnownScreened (screen years quarters)
  unfolding screen
  screen-Known years quarters h k = (
    withhold_derived-Known _ (withhold_from years years) (withhold_from-Known years years h),
    withhold_derived-Known _ (withhold_from quarters quarters)
        (withhold_from-Known quarters quarters k),
  )

  pub complete-Known :
      (src : Sources) (selected : List Figure) (years quarters : Intervals) (gaps : List Gap)
      (s : Screened)
      → All (Known cutoff) selected
      → KnownScreened s
      → Ensures (KnownProgress cutoff) (complete src selected years quarters gaps s)
  unfolding complete
  complete-Known src selected years quarters gaps s k h =
      let start : Entries = record { table = s.annual; gaps = gaps ++ s.gaps } in
      Ensures-bind (add_all src selected years start) _ (λ first e.
        let next : Entries = record { table = s.quarterly; gaps = first.gaps } in
        Ensures-bind (add_all src selected quarters next) _ (λ second d. Ensures-ok _ (
          (add_all-Known src selected years start k h.0).returned first e,
          (add_all-Known src selected quarters next k h.1).returned second d,
        )))
