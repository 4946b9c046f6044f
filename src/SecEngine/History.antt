-- ===== src/SecEngine/History.antt =====
-- sec_engine.py: `history`. The cutoff is the printed instant of the request, and the two dates have the form
-- YYYY-MM-DD. The constant fields of the result are left out.
use zion_terminal.Base.{
  ℕ, ◌-◌, ◌*◌, Bool, false, ◌&&◌, ◌||◌, not, Option, none, some, List, [], ◌∷◌, ◌++◌, String, leb,
  keep, every, is_empty, length, if◌then◌else◌,
}
use zion_terminal.Base.Result.{ok, err, ◌>>=◌}
use zion_terminal.Base.Sorting.{sorted}
use zion_terminal.Retrieval.{member}
use zion_terminal.SecEngine.Registry.{in_registry}
use zion_terminal.SecEngine.Derivation.{Figure, Engine}
use zion_terminal.SecEngine.Sources.{Sources, Gap, is_available, Intervals, Anchors, anchors_from}
use zion_terminal.SecEngine.Selection.{figures, selection_gaps, select_rows}
use zion_terminal.SecEngine.Periods.{Progress, enter_all}
use zion_terminal.SecEngine.Overlap.{Screened, screen}
use zion_terminal.SecEngine.Anchors.{earlier_interval, add_all}
use zion_terminal.SecEngine.Output.{Frequency, frequency_named, output_of}
use zion_terminal.SecEngine.Coverage.{HistoryResult, anchors_for, publish}

unfoldable pub has_repeat : List String → Bool
unfolding member
has_repeat [] = false
has_repeat (m ∷ ms) = member m ms || has_repeat ms

-- The metrics of a request.
unfoldable pub valid_metrics : List String → Bool
unfolding in_registry has_repeat
valid_metrics metrics =
    not (is_empty metrics)
    && (leb (length metrics) 9 && (not (has_repeat metrics) && every in_registry metrics))

unfoldable pub valid_range : ℕ → ℕ → Bool
valid_range date_from date_to = leb date_from date_to && leb (date_to - date_from) (100 * 366)

abbrev pub no_anchors : Anchors
no_anchors = record { annual = []; quarterly = [] }

-- The tables of annual and quarterly figures.
unfoldable pub tables_of : Sources → String → ℕ → Engine Progress
unfolding select_rows figures selection_gaps anchors_from enter_all is_available
tables_of src cutoff date_to =
    let chosen = select_rows src cutoff date_to in
    let anchors =
      anchors_from src cutoff (keep (is_available cutoff date_to) src.observations) no_anchors in
    enter_all src cutoff (figures chosen) (figures chosen) (record {
      annual = [];
      quarterly = [];
      anchors = anchors.quarterly;
      gaps = selection_gaps chosen;
    })

unfoldable pub annual_anchors : Sources → String → ℕ → Intervals
unfolding anchors_from is_available sorted
annual_anchors src cutoff date_to =
    sorted earlier_interval
      (anchors_from src cutoff (keep (is_available cutoff date_to) src.observations)
        no_anchors).annual

-- The tables with the figures at the ends of the periods.
unfoldable pub complete :
    Sources → List Figure → Intervals → Intervals → List Gap → Screened → Engine Progress
unfolding add_all
complete src selected years quarters gaps s =
    add_all src selected years (record { table = s.annual; gaps = gaps ++ s.gaps }) >>= λ first.
    add_all src selected quarters (record { table = s.quarterly; gaps = first.gaps }) >>= λ second.
    ok (record {
      annual = first.table;
      quarterly = second.table;
      anchors = quarters;
      gaps = second.gaps;
    })

unfoldable pub completed : Sources → String → ℕ → Progress → Engine Progress
unfolding complete screen sorted annual_anchors select_rows figures
completed src cutoff date_to p =
    complete src (figures (select_rows src cutoff date_to)) (annual_anchors src cutoff date_to)
      (sorted earlier_interval p.anchors) p.gaps (screen p.annual p.quarterly)

-- The part of `history` after the checks of the request.
unfoldable pub history_of :
    Sources → List String → Frequency → ℕ → ℕ → String → Engine HistoryResult
unfolding tables_of completed output_of publish annual_anchors
history_of src metrics frequency date_from date_to cutoff = do
  p ← tables_of src cutoff date_to
  c ← completed src cutoff date_to p
  found ← output_of frequency metrics c.annual c.quarterly
  ok (
      publish src metrics frequency date_from date_to
        (anchors_for frequency (annual_anchors src cutoff date_to) c.anchors) c.gaps found)

unfoldable pub history_named :
    Sources → List String → Option Frequency → ℕ → ℕ → String → Engine HistoryResult
unfolding valid_range history_of
history_named src metrics none date_from date_to cutoff = err "INVALID_FREQUENCY"
history_named src metrics (some f) date_from date_to cutoff =
    if valid_range date_from date_to
    then history_of src metrics f date_from date_to cutoff
    else err "INVALID_DATE_RANGE"

-- `history`; the first argument tells whether the rights and the schema of the sources are approved.
unfoldable pub history :
    Bool → Sources → List String → String → ℕ → ℕ → String → Engine HistoryResult
unfolding valid_metrics frequency_named history_named
history approved src metrics frequency date_from date_to cutoff =
    if not approved
    then err "UNAPPROVED_SOURCE"
    else if not (valid_metrics metrics)
    then err "INVALID_METRIC"
    else history_named src metrics (frequency_named frequency) date_from date_to cutoff
