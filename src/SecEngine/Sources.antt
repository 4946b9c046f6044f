-- ===== src/SecEngine/Sources.antt =====
-- sec_engine.py: the normalised sources, `quarter_ok`, and the intervals that `history` takes as years and
-- quarters.
use zion_terminal.Base.{
  ℕ, ◌+◌, ◌-◌, Bool, true, false, ◌&&◌, ◌||◌, Option, none, some, List, [], ◌∷◌, ◌++◌, String,
  str_eq, ◌==◌, leb, if◌then◌else◌,
}
use zion_terminal.Base.Texts.{str_leb}
use zion_terminal.SecEngine.Decimals.{Decimal}
use zion_terminal.SecEngine.Registry.{in_registry}

-- An observation of the source.
pub record Row : Type 0 where
  pub metric : String
  pub concept : String
  pub unit : String
  pub currency : Option String
  pub period_start : Option ℕ
  pub period_end : ℕ
  pub available_at : String
  pub form : String
  pub value_decimal : Option Decimal
  pub source_observation_id : String

-- A context whose value was rejected.
pub record Rejected : Type 0 where
  pub metric : String
  pub concept : String
  pub period_start : Option ℕ
  pub period_end : ℕ
  pub available_at : String

-- An interval that `infer_calendar` allows as a long quarter.
pub record LongQuarter : Type 0 where
  pub period_start : ℕ
  pub period_end : ℕ
  pub available_at : String

-- The normalised sources, with the policy's fields; absent policies have their defaults.
pub record Sources : Type 0 where
  pub cik : String
  pub observations : List Row
  pub rejected_contexts : List Rejected
  pub quarter_max_days : ℕ
  pub long_quarter_contexts : List LongQuarter
  pub debt_components : List String
  pub quarantined_metrics : List (String × String)

pub record Gap : Type 0 where
  pub metric : String
  pub period_start : Option ℕ
  pub period_end : Option ℕ
  pub reason : String

-- `==` on optional dates
abbrev pub same_start : Option ℕ → Option ℕ → Bool
same_start none none = true
same_start (some a) (some b) = a == b
same_start _ _ = false

-- Days from the start to the end, both counted; no row starts after its end.
abbrev pub days_between : ℕ → ℕ → ℕ
days_between start ending = ending + 1 - start

abbrev pub within : ℕ → ℕ → ℕ → Bool
within low high n = leb low n && leb n high

-- `quarter_ok`
unfoldable pub is_long_quarter : ℕ → ℕ → String → List LongQuarter → Bool
unfolding str_leb
is_long_quarter start ending cutoff [] = false
is_long_quarter start ending cutoff (c ∷ cs) =
    (c.period_start == start && (c.period_end == ending && str_leb c.available_at cutoff))
    || is_long_quarter start ending cutoff cs

unfoldable pub quarter_ok : Sources → ℕ → ℕ → String → Bool
unfolding is_long_quarter
quarter_ok src start ending cutoff =
    within 75 105 (days_between start ending)
    || is_long_quarter start ending cutoff src.long_quarter_contexts

abbrev pub is_yearly_form : String → Bool
is_yearly_form form = str_eq form "10-K" || str_eq form "10-K/A"

-- An annual or a quarterly interval.
abbrev pub is_annual : ℕ → ℕ → String → Bool
is_annual start ending form = within 330 380 (days_between start ending) && is_yearly_form form

-- The rows that the request may use.
unfoldable pub is_available : String → ℕ → Row → Bool
unfolding str_leb
is_available cutoff date_to row = str_leb row.available_at cutoff && leb row.period_end date_to

-- The intervals of the rows that are annual, and those that are quarters.
abbrev pub Intervals : Type 0
Intervals = List (ℕ × ℕ)

unfoldable pub has_interval : ℕ → ℕ → Intervals → Bool
has_interval start ending [] = false
has_interval start ending ((s, e) ∷ rest) =
    (s == start && e == ending) || has_interval start ending rest

unfoldable pub add_interval : ℕ → ℕ → Intervals → Intervals
unfolding has_interval
add_interval start ending xs =
    if has_interval start ending xs then xs else xs ++ (start, ending) ∷ []

pub record Anchors : Type 0 where
  pub annual : Intervals
  pub quarterly : Intervals

unfoldable pub add_anchor : Sources → String → Row → Anchors → Anchors
unfolding quarter_ok add_interval in_registry
add_anchor src cutoff row a = elim row.period_start [
  | none ↦ a
  | some start ↦
      if in_registry row.metric
      then record {
        annual =
            if is_annual start row.period_end row.form
            then add_interval start row.period_end a.annual
            else a.annual;
        quarterly =
            if quarter_ok src start row.period_end cutoff
            then add_interval start row.period_end a.quarterly
            else a.quarterly;
      }
      else a
]

unfoldable pub anchors_from : Sources → String → List Row → Anchors → Anchors
unfolding add_anchor
anchors_from src cutoff [] a = a
anchors_from src cutoff (row ∷ rows) a = anchors_from src cutoff rows (add_anchor src cutoff row a)
