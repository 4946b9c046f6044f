-- ===== src/SecEngine/Entering.antt =====
-- sec_engine.py: the loop of `history` over the selected figures keeps what its insertions keep.
use zion_terminal.Base.{
  ℕ, ◌+◌, not, ◌&&◌, ◌||◌, Option, none, some, List, [], ◌∷◌, String, str_eq, ltb, ◌≡◌, All,
  All-keep_of, if◌then◌else◌, if_both,
}
use zion_terminal.Base.Result.{ok, Ensures, Ensures-ok, Ensures-if, Ensures-bind}
use zion_terminal.SecEngine.Decimals.{same_optional}
use zion_terminal.SecEngine.Registry.{is_flow}
use zion_terminal.SecEngine.Derivation.{Figure, Operation, subtract, calculate_figure}
use zion_terminal.SecEngine.Sources.{
  Sources, Intervals, within, days_between, quarter_ok, is_annual,
}
use zion_terminal.SecEngine.Periods.{
  Key, Slot, ambiguous, held, Progress, slot_at, insert_annual, insert_quarterly, add_gap, key_of,
  is_prior, enter_derived, unless_agreed, derive_quarter, enter_reported, step_period, step_from,
  enter_all, is_capex, negative_value, has_value,
}

-- A property of figures that a derivation keeps, and one of states that the insertions, the gaps and the
-- anchors keep.
module _ (Q : Figure → Type 0) (P : Progress → Type 0)
    (calculate_keeps : (operation : Operation) (metric : String) (start : Option ℕ) (ending : ℕ)
        (p : Figure) (ps : List Figure) (f : Figure)
      → calculate_figure operation metric start ending p ps ≡ ok f
      → Q p
      → All Q ps
      → Q f)
    (annual_keeps : (cik : String) (key : Key) (item : Figure) (p : Progress)
      → Q item
      → P p
      → P (insert_annual cik key item p))
    (quarterly_keeps : (cik : String) (key : Key) (item : Figure) (p : Progress)
      → Q item
      → P p
      → P (insert_quarterly cik key item p))
    (gap_keeps : (key : Key) (reason : String) (p : Progress) → P p → P (add_gap key reason p))
    (anchors_keep : (p : Progress) (xs : Intervals) → P p → P (record p { anchors = xs })) where
  unless_agreed_keeps :
      (derived : Figure) (slot : Option Slot) (p entered : Progress)
      → P p
      → P entered
      → P (unless_agreed derived slot p entered)
  unfolding unless_agreed
  unless_agreed_keeps derived none p entered h k = k
  unless_agreed_keeps derived (some ambiguous) p entered h k = k
  unless_agreed_keeps derived (some (held existing)) p entered h k =
      if_both P (same_optional existing.value_decimal derived.value_decimal) p entered h k

  enter_derived_keeps :
      (src : Sources) (limit : String) (key : Key) (derived : Figure) (start : ℕ) (p : Progress)
      → Q derived
      → P p
      → P (enter_derived src limit key derived start p)
  unfolding enter_derived
  enter_derived_keeps src limit key derived start p k h =
      if_both P (is_capex key.metric && negative_value derived.value_decimal)
        (add_gap key "NEGATIVE_DERIVED_PPE_PAYMENT" p) _
        (gap_keeps key "NEGATIVE_DERIVED_PPE_PAYMENT" p h)
        (if_both P (not (quarter_ok src start key.period_end limit)) p _ h (
          unless_agreed_keeps derived (slot_at key p.quarterly) p _ h (
            anchors_keep (insert_quarterly src.cik key derived p) _
              (quarterly_keeps src.cik key derived p k h))))

  enter_reported_keeps :
      (src : Sources) (limit : String) (item : Figure) (start : ℕ) (p : Progress)
      → Q item
      → P p
      → P (enter_reported src limit item start p)
  unfolding enter_reported
  enter_reported_keeps src limit item start p k h =
      let key = key_of item start item.period_end in
      let first =
        if is_annual start item.period_end item.form then insert_annual src.cik key item p else p in
      let known : P first =
        if_both P (is_annual start item.period_end item.form) (insert_annual src.cik key item p) p
          (annual_keeps src.cik key item p k h) h in
      if_both P (quarter_ok src start item.period_end limit)
        (insert_quarterly src.cik key item first) first
        (quarterly_keeps src.cik key item first k known) known

  derive_quarter_keeps :
      (src : Sources) (limit : String) (item : Figure) (start : ℕ) (prior : List Figure)
      (p : Progress)
      → Q item
      → All Q prior
      → P p
      → Ensures P (derive_quarter src limit item start prior p)
  unfolding derive_quarter
  derive_quarter_keeps src limit item start [] p k ks h = Ensures-ok p h
  derive_quarter_keeps src limit item start (a ∷ b ∷ prior) p k ks h = Ensures-ok p h
  derive_quarter_keeps src limit item start (previous ∷ []) p k ks h =
      Ensures-if (within 75 300 (days_between start previous.period_end)) _ (ok p)
        (λ e.
          Ensures-bind
            (calculate_figure subtract item.metric (some (previous.period_end + 1)) item.period_end
              item (previous ∷ []))
            _
            (λ derived d. Ensures-ok _ (
              enter_derived_keeps src limit (key_of item (previous.period_end + 1) item.period_end)
                derived (previous.period_end + 1) p
                (calculate_keeps subtract item.metric (some (previous.period_end + 1))
                  item.period_end item (previous ∷ []) derived d k ks)
                h)))
        (λ e. Ensures-ok p h)

  step_period_keeps :
      (src : Sources) (limit : String) (selected : List Figure) (item : Figure) (start : ℕ)
      (p : Progress)
      → Q item
      → All Q selected
      → P p
      → Ensures P (step_period src limit selected item start p)
  unfolding step_period
  step_period_keeps src limit selected item start p k ks h =
      let reported = enter_reported src limit item start p in
      let known = enter_reported_keeps src limit item start p k h in
      Ensures-if (not (has_value item)) _ _ (λ e. Ensures-ok _ (gap_keeps _ "SOURCE_NULL" p h))
        (λ e.
          Ensures-if
            ((is_capex item.metric || str_eq item.metric "diluted_shares")
              && negative_value item.value_decimal)
            _ _ (λ e. Ensures-ok _ (gap_keeps _ "NEGATIVE_VALUE_INVALID_FOR_METRIC_DEFINITION" p h))
            (λ e.
              Ensures-if (not (is_flow item.metric) || ltb (days_between start item.period_end) 150)
                (ok reported) _ (λ e. Ensures-ok reported known)
                (λ e.
                  derive_quarter_keeps src limit item start _ reported k
                    (All-keep_of Q (is_prior src.quarter_max_days item start item.period_end)
                      selected ks)
                    known)))

  step_from_keeps :
      (src : Sources) (limit : String) (selected : List Figure) (item : Figure) (start : Option ℕ)
      (p : Progress)
      → Q item
      → All Q selected
      → P p
      → Ensures P (step_from src limit selected item start p)
  unfolding step_from
  step_from_keeps src limit selected item none p k ks h = Ensures-ok p h
  step_from_keeps src limit selected item (some start) p k ks h =
      step_period_keeps src limit selected item start p k ks h

  pub enter_all_keeps :
      (src : Sources) (limit : String) (selected items : List Figure) (p : Progress)
      → All Q items
      → All Q selected
      → P p
      → Ensures P (enter_all src limit selected items p)
  unfolding enter_all
  enter_all_keeps src limit selected [] p k ks h = Ensures-ok p h
  enter_all_keeps src limit selected (item ∷ items) p k ks h =
      Ensures-bind (step_from src limit selected item item.period_start p) _ (λ next e.
        enter_all_keeps src limit selected items next k.1 ks
          ((step_from_keeps src limit selected item item.period_start p k.0 ks h).returned next e))
