-- ===== src/SecEngine/Anchors.antt =====
-- sec_engine.py: the part of `history` that adds, at the ends of the annual and quarterly periods, the cash,
-- the debt as the sum of all its components, and the free cash flow.
use zion_terminal.Base.{
  ℕ, Bool, true, false, ◌&&◌, ◌||◌, Option, none, some, List, [], ◌∷◌, ◌++◌, String, str_eq, ◌==◌,
  ltb, leb, keep, if◌then◌else◌,
}
use Prim.Native.String.{◌++◌ as str_append}
use zion_terminal.Base.Result.{ok, ◌>>=◌}
use zion_terminal.SecEngine.Registry.{is_quarantined}
use zion_terminal.SecEngine.Derivation.{Figure, Engine, sum, subtract, calculate_figure}
use zion_terminal.SecEngine.Sources.{Sources, Gap, Intervals}
use zion_terminal.SecEngine.Periods.{
  Key, Slot, held, Table, Entries, slot_at, assign, has_value, negative_value,
}
use zion_terminal.SecEngine.Overlap.{end_gap}

-- The figures of an instant.
abbrev pub is_instant_of : String → ℕ → Figure → Bool
is_instant_of metric ending p =
    str_eq p.metric metric
    && (elim p.period_start [ none ↦ true | some s ↦ false ] && p.period_end == ending)

abbrev pub end_key : String → ℕ → Key
end_key metric ending = record { metric = metric; period_start = none; period_end = ending }

unfoldable pub add_cash : ℕ → List Figure → Table → Table
unfolding assign
add_cash ending (p ∷ []) table =
    if has_value p then assign (end_key "cash" ending) (held p) table else table
add_cash ending _ table = table

-- The components of the debt, if each has one figure that is not negative.
unfoldable pub component : List Figure → Option Figure
component (p ∷ []) = if negative_value p.value_decimal then none else some p
component _ = none

unfoldable pub add_component : Option Figure → Option (List Figure) → Option (List Figure)
add_component (some p) (some ps) = some (p ∷ ps)
add_component _ _ = none

unfoldable pub components : List Figure → ℕ → List String → Option (List Figure)
unfolding component add_component
components selected ending [] = some []
components selected ending (tag ∷ tags) =
    add_component
      (component
        (keep has_value (keep (is_instant_of (str_append "debt_component:" tag) ending) selected)))
      (components selected ending tags)

unfoldable pub add_debt : String → ℕ → Option (List Figure) → Table → Engine Table
unfolding calculate_figure assign
add_debt cik ending (some (p ∷ ps)) table =
    if is_quarantined cik
    then ok table
    else (calculate_figure sum "total_debt" none ending p ps >>= λ debt.
        ok (assign (end_key "total_debt" ending) (held debt) table))
add_debt cik ending _ table = ok table

abbrev pub flow_key : String → ℕ → ℕ → Key
flow_key metric start ending = record {
  metric = metric;
  period_start = some start;
  period_end = ending;
}

unfoldable pub add_free_cash_flow : ℕ → ℕ → Option Slot → Option Slot → Table → Engine Table
unfolding calculate_figure assign
add_free_cash_flow start ending (some (held cfo)) (some (held capex)) table =
    if negative_value capex.value_decimal
    then ok table
    else (calculate_figure subtract "free_cash_flow" (some start) ending cfo (capex ∷ [])
        >>= λ figure. ok (assign (flow_key "free_cash_flow" start ending) (held figure) table))
add_free_cash_flow start ending _ _ table = ok table

unfoldable pub quarantine_gaps : String → ℕ → List Gap
quarantine_gaps cik ending =
    if is_quarantined cik
    then end_gap "total_debt" ending "COMPANY_DEBT_COMPONENT_NONOVERLAP_NOT_FILINGLEVEL_CONFIRMED"
      ∷ []
    else []

-- What an interval adds to the table.
unfoldable pub add_anchor_figures : Sources → List Figure → ℕ → ℕ → Entries → Engine Entries
unfolding add_cash components add_debt add_free_cash_flow quarantine_gaps slot_at
add_anchor_figures src selected start ending s =
    let table = add_cash ending (keep (is_instant_of "cash" ending) selected) s.table in
    add_debt src.cik ending (components selected ending src.debt_components) table >>= λ with_debt.
    add_free_cash_flow start ending
      (slot_at (flow_key "operating_cash_flow" start ending) with_debt)
      (slot_at (flow_key "capital_expenditures" start ending) with_debt) with_debt
    >>= λ with_flow.
        ok (record { table = with_flow; gaps = s.gaps ++ quarantine_gaps src.cik ending })

abbrev pub earlier_interval : ℕ × ℕ → ℕ × ℕ → Bool
earlier_interval (s, e) (t, f) = ltb s t || (s == t && leb e f)

unfoldable pub add_all : Sources → List Figure → Intervals → Entries → Engine Entries
unfolding add_anchor_figures
add_all src selected [] s = ok s
add_all src selected ((start, ending) ∷ rest) s =
    add_anchor_figures src selected start ending s >>= λ next. add_all src selected rest next
