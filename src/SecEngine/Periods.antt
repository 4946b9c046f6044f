-- ===== src/SecEngine/Periods.antt =====
-- sec_engine.py: the middle part of `history`, which enters the figures of annual and quarterly periods
-- and derives a quarter from two cumulative figures.
use zion_terminal.Base.{
  ℕ, ◌+◌, ◌-◌, Bool, true, false, ◌&&◌, ◌||◌, not, Option, none, some, List, [], ◌∷◌, ◌++◌, String,
  str_eq, ◌==◌, ltb, keep, if◌then◌else◌,
}
use zion_terminal.Base.Result.{ok, ◌>>=◌}
use zion_terminal.SecEngine.Decimals.{Decimal, same_optional, is_negative}
use zion_terminal.SecEngine.Registry.{in_registry, is_flow, ranked_concepts, rank}
use zion_terminal.SecEngine.Derivation.{Figure, Engine, subtract, calculate_figure}
use zion_terminal.SecEngine.Sources.{
  Sources, Gap, Intervals, same_start, within, days_between, quarter_ok, is_annual, add_interval,
}

-- The key of a period of a metric.
pub record Key : Type 0 where
  pub metric : String
  pub period_start : Option ℕ
  pub period_end : ℕ

unfoldable pub same_key : Key → Key → Bool
same_key a b =
    str_eq a.metric b.metric
    && (same_start a.period_start b.period_start && a.period_end == b.period_end)

-- The value of a key: False once two figures have disagreed.
pub data Slot : Type 0 where
  ambiguous : Slot
  held : Figure → Slot

abbrev pub Table : Type 0
Table = List (Key × Slot)

-- `table.get(key)`
unfoldable pub slot_at : Key → Table → Option Slot
unfolding same_key
slot_at key [] = none
slot_at key ((k, slot) ∷ rest) =
    let later = slot_at key rest in if same_key k key then some slot else later

-- `table[key] = slot`
unfoldable pub assign : Key → Slot → Table → Table
unfolding same_key
assign key slot [] = (key, slot) ∷ []
assign key slot ((k, old) ∷ rest) =
    let later = assign key slot rest in
    if same_key k key then (k, slot) ∷ rest else (k, old) ∷ later

-- A table with the gaps found so far.
pub record Entries : Type 0 where
  pub table : Table
  pub gaps : List Gap

abbrev pub gap_of : Key → String → Gap
gap_of key reason = record {
  metric = key.metric;
  period_start = key.period_start;
  period_end = some key.period_end;
  reason = reason;
}

-- The new figure's concept comes before that of the figure that is there.
unfoldable pub is_preferred : String → Key → Figure → Figure → Bool
unfolding rank ranked_concepts in_registry
is_preferred cik key item existing =
    let concepts = ranked_concepts cik key.metric in
    not (str_eq existing.concept item.concept)
    && (in_registry key.metric && elim (rank concepts item.concept) [
      | none ↦ false
      | some i ↦ elim (rank concepts existing.concept) [ none ↦ false | some j ↦ ltb i j ]
    ])

-- `insert`, at the value that the key has
unfoldable pub insert_at : String → Key → Figure → Entries → Option Slot → Entries
unfolding assign is_preferred
insert_at cik key item s none = record s { table = assign key (held item) s.table }
insert_at cik key item s (some ambiguous) = s
insert_at cik key item s (some (held existing)) =
    if not (same_optional existing.value_decimal item.value_decimal)
    then record {
      table = assign key ambiguous s.table;
      gaps = s.gaps ++ gap_of key "AMBIGUOUS_CONCEPT_OR_DERIVATION" ∷ [];
    }
    else if is_preferred cik key item existing
    then record s { table = assign key (held item) s.table }
    else s

-- `insert`
unfoldable pub insert : String → Key → Figure → Entries → Entries
unfolding insert_at slot_at
insert cik key item s = insert_at cik key item s (slot_at key s.table)

-- The state of the loop over the selected figures.
pub record Progress : Type 0 where
  pub annual : Table
  pub quarterly : Table
  pub anchors : Intervals
  pub gaps : List Gap

unfoldable pub insert_annual : String → Key → Figure → Progress → Progress
unfolding insert
insert_annual cik key item p =
    let s = insert cik key item (record { table = p.annual; gaps = p.gaps }) in
    record p { annual = s.table; gaps = s.gaps }

unfoldable pub insert_quarterly : String → Key → Figure → Progress → Progress
unfolding insert
insert_quarterly cik key item p =
    let s = insert cik key item (record { table = p.quarterly; gaps = p.gaps }) in
    record p { quarterly = s.table; gaps = s.gaps }

abbrev pub key_of : Figure → ℕ → ℕ → Key
key_of item start ending = record {
  metric = item.metric;
  period_start = some start;
  period_end = ending;
}

unfoldable pub add_gap : Key → String → Progress → Progress
add_gap key reason p = record p { gaps = p.gaps ++ gap_of key reason ∷ [] }

abbrev pub negative_value : Option Decimal → Bool
negative_value none = false
negative_value (some n) = is_negative n

abbrev pub has_value : Figure → Bool
has_value p = elim p.value_decimal [ none ↦ false | some n ↦ true ]

abbrev pub is_capex : String → Bool
is_capex metric = str_eq metric "capital_expenditures"

-- The figures that the cumulative figure may be reduced by.
unfoldable pub is_prior : ℕ → Figure → ℕ → ℕ → Figure → Bool
is_prior quarter_max_days item start ending p =
    str_eq p.metric item.metric
    && (str_eq p.concept item.concept
        && (same_start p.period_start (some start)
            && (ltb p.period_end ending
                && (within 75 quarter_max_days (ending - p.period_end)
                    && (has_value p
                        && not (is_capex item.metric && negative_value p.value_decimal))))))

-- The first state where the figure that is there agrees with the derived one.
unfoldable pub unless_agreed : Figure → Option Slot → Progress → Progress → Progress
unless_agreed derived (some (held existing)) p entered =
    if same_optional existing.value_decimal derived.value_decimal then p else entered
unless_agreed derived _ p entered = entered

-- A derived quarter is entered, unless it agrees with the figure that is there.
unfoldable pub enter_derived : Sources → String → Key → Figure → ℕ → Progress → Progress
unfolding quarter_ok insert_quarterly add_interval slot_at add_gap unless_agreed
enter_derived src cutoff key derived start p =
    if is_capex key.metric && negative_value derived.value_decimal
    then add_gap key "NEGATIVE_DERIVED_PPE_PAYMENT" p
    else if not (quarter_ok src start key.period_end cutoff)
    then p
    else let entered = insert_quarterly src.cik key derived p in
      unless_agreed derived (slot_at key p.quarterly) p
        (record entered { anchors = add_interval start key.period_end entered.anchors })

-- The quarter that the only prior figure leaves.
unfoldable pub derive_quarter :
    Sources → String → Figure → ℕ → List Figure → Progress → Engine Progress
unfolding calculate_figure enter_derived
derive_quarter src cutoff item start (previous ∷ []) p =
    if within 75 300 (days_between start previous.period_end)
    then (calculate_figure subtract item.metric (some (previous.period_end + 1)) item.period_end
          item (previous ∷ [])
        >>= λ derived. ok (
            enter_derived src cutoff (key_of item (previous.period_end + 1) item.period_end) derived
              (previous.period_end + 1) p))
    else ok p
derive_quarter src cutoff item start _ p = ok p

unfoldable pub enter_reported : Sources → String → Figure → ℕ → Progress → Progress
unfolding insert_annual insert_quarterly quarter_ok
enter_reported src cutoff item start p =
    let key = key_of item start item.period_end in
    let first =
      if is_annual start item.period_end item.form then insert_annual src.cik key item p else p in
    if quarter_ok src start item.period_end cutoff
    then insert_quarterly src.cik key item first
    else first

-- One round of the loop, for a figure of a period.
unfoldable pub step_period :
    Sources → String → List Figure → Figure → ℕ → Progress → Engine Progress
unfolding enter_reported derive_quarter is_prior is_flow add_gap
step_period src cutoff selected item start p =
    if not (has_value item)
    then ok (add_gap (key_of item start item.period_end) "SOURCE_NULL" p)
    else if (is_capex item.metric || str_eq item.metric "diluted_shares")
        && negative_value item.value_decimal
    then ok (
        add_gap (key_of item start item.period_end) "NEGATIVE_VALUE_INVALID_FOR_METRIC_DEFINITION"
          p)
    else let reported = enter_reported src cutoff item start p in
      if not (is_flow item.metric) || ltb (days_between start item.period_end) 150
      then ok reported
      else derive_quarter src cutoff item start
          (keep (is_prior src.quarter_max_days item start item.period_end) selected) reported

-- A figure without a start is left out.
unfoldable pub step_from :
    Sources → String → List Figure → Figure → Option ℕ → Progress → Engine Progress
unfolding step_period
step_from src cutoff selected item none p = ok p
step_from src cutoff selected item (some start) p = step_period src cutoff selected item start p

unfoldable pub enter_all : Sources → String → List Figure → List Figure → Progress → Engine Progress
unfolding step_from
enter_all src cutoff selected [] p = ok p
enter_all src cutoff selected (item ∷ items) p =
    step_from src cutoff selected item item.period_start p >>= λ next.
    enter_all src cutoff selected items next
