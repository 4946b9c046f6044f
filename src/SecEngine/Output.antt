-- ===== src/SecEngine/Output.antt =====
-- sec_engine.py: the figures that `history` puts out: those of a table, or the sums of four quarters.
use zion_terminal.Base.{
  ◌+◌, Bool, false, ◌&&◌, Option, none, some, List, [], ◌∷◌, ◌++◌, String, str_eq, ◌==◌, leb,
  if◌then◌else◌,
}
use zion_terminal.Base.Result.{ok, ◌>>=◌}
use zion_terminal.Base.Sorting.{sorted}
use zion_terminal.Retrieval.{member}
use zion_terminal.SecEngine.Registry.{is_flow}
use zion_terminal.SecEngine.Derivation.{Figure, Engine, calculate_figure, sum}
use zion_terminal.SecEngine.Sources.{Gap, days_between, within}
use zion_terminal.SecEngine.Periods.{Key, Table, ambiguous, held}

pub data Frequency : Type 0 where
  annual quarterly ttm : Frequency

unfoldable pub frequency_named : String → Option Frequency
frequency_named s =
    if str_eq s "annual"
    then some annual
    else if str_eq s "quarterly"
    then some quarterly
    else if str_eq s "ttm"
    then some ttm
    else none

-- Four quarters of one concept, each starting on the day after the one before.
unfoldable pub follows : Figure → Figure → Bool
follows a b = elim b.period_start [ none ↦ false | some start ↦ start == a.period_end + 1 ]

unfoldable pub is_year : Figure → Figure → Figure → Figure → Bool
unfolding follows
is_year a b c d =
    (follows a b && (follows b c && follows c d))
    && ((str_eq b.concept a.concept && (str_eq c.concept a.concept && str_eq d.concept a.concept))
        && elim a.period_start [
          | none ↦ false
          | some start ↦ within 330 380 (days_between start d.period_end)
        ])

-- The sums over the windows of four quarters.
unfoldable pub trailing : String → List Figure → Engine (List Figure)
unfolding is_year calculate_figure
trailing metric (a ∷ b ∷ c ∷ d ∷ rest) =
    let later = trailing metric (b ∷ c ∷ d ∷ rest) in
    if is_year a b c d
    then (calculate_figure sum metric a.period_start d.period_end a (b ∷ c ∷ d ∷ []) >>= λ year.
        later >>= λ years. ok (year ∷ years))
    else later
trailing metric _ = ok []

unfoldable pub held_figures : (Key → Bool) → Table → List Figure
held_figures p [] = []
held_figures p ((k, ambiguous) ∷ rest) = held_figures p rest
held_figures p ((k, held f) ∷ rest) =
    let more = held_figures p rest in if p k then f ∷ more else more

abbrev pub ends_earlier : Figure → Figure → Bool
ends_earlier a b = leb a.period_end b.period_end

abbrev pub is_metric : String → Key → Bool
is_metric metric k = str_eq k.metric metric

abbrev pub open_gap : String → String → Gap
open_gap metric reason = record {
  metric = metric;
  period_start = none;
  period_end = none;
  reason = reason;
}

-- The trailing sums of the metrics that are flows.
unfoldable pub trailing_all : Table → List String → Engine (List Figure)
unfolding trailing sorted held_figures is_flow
trailing_all table [] = ok []
trailing_all table (m ∷ ms) =
    let rest = trailing_all table ms in
    if is_flow m
    then (trailing m (sorted ends_earlier (held_figures (is_metric m) table)) >>= λ years.
        rest >>= λ others. ok (years ++ others))
    else rest

unfoldable pub nonadditive_gaps : List String → List Gap
unfolding is_flow
nonadditive_gaps [] = []
nonadditive_gaps (m ∷ ms) =
    let rest = nonadditive_gaps ms in
    if is_flow m then rest else open_gap m "TTM_NOT_DEFINED_FOR_NONADDITIVE_METRIC" ∷ rest

abbrev pub is_asked : List String → Key → Bool
is_asked metrics k = member k.metric metrics

-- The figures before they are filtered, and their gaps.
unfoldable pub output_of : Frequency → List String → Table → Table → Engine (List Figure)
unfolding trailing_all held_figures member
output_of annual metrics years quarters = ok (held_figures (is_asked metrics) years)
output_of quarterly metrics years quarters = ok (held_figures (is_asked metrics) quarters)
output_of ttm metrics years quarters = trailing_all quarters metrics

unfoldable pub frequency_gaps : Frequency → List String → List Gap
unfolding nonadditive_gaps
frequency_gaps ttm metrics = nonadditive_gaps metrics
frequency_gaps _ metrics = []
