-- ===== src/SecEngine/Published.antt =====
-- sec_engine.py: `history` publishes no figure that was not available at its cutoff.
use zion_terminal.Base.{
  ℕ, Bool, not, Option, none, some, List, [], ◌∷◌, String, ◌≡◌, All, All-keep_of, All-append,
  if_both,
}
use zion_terminal.Base.Result.{
  ok, otherwise, Ensures, Ensures-ok, Ensures-err, Ensures-if, Ensures-bind,
}
use zion_terminal.Base.Sorting.{sorted, All-sorted}
use zion_terminal.SecEngine.Registry.{is_flow}
use zion_terminal.SecEngine.Derivation.{Figure, calculate_figure, sum}
use zion_terminal.SecEngine.Sources.{Sources}
use zion_terminal.SecEngine.Selection.{figures, select_rows}
use zion_terminal.SecEngine.Periods.{Key, Table, Progress, ambiguous, held}
use zion_terminal.SecEngine.Overlap.{screen}
use zion_terminal.SecEngine.Output.{
  Frequency, frequency_named, is_year, trailing, held_figures, ends_earlier, is_metric,
  trailing_all, is_asked, output_of, annual, quarterly, ttm,
}
use zion_terminal.SecEngine.Coverage.{is_published, before, HistoryResult, publish}
use zion_terminal.SecEngine.History.{
  valid_metrics, valid_range, tables_of, completed, history_of, history_named, history,
}
use zion_terminal.SecEngine.Known.{Known, calculate_figure-Known, select_rows-Known, KnownTable}
use zion_terminal.SecEngine.Lookahead.{KnownProgress, enter_all-Known}
use zion_terminal.SecEngine.Anchored.{screen-Known, complete-Known}

module _ (cutoff : String) where
  held_figures-Known :
      (p : Key → Bool) (table : Table)
      → KnownTable cutoff table
      → All (Known cutoff) (held_figures p table)
  unfolding held_figures
  held_figures-Known p [] h = tt
  held_figures-Known p ((k, ambiguous) ∷ rest) h = held_figures-Known p rest h.1
  held_figures-Known p ((k, held f) ∷ rest) h =
      let more = held_figures-Known p rest h.1 in
      if_both (All (Known cutoff)) (p k) (f ∷ held_figures p rest) (held_figures p rest) (h.0, more)
        more

  trailing-Known :
      (metric : String) (quarters : List Figure)
      → All (Known cutoff) quarters
      → Ensures (All (Known cutoff)) (trailing metric quarters)
  unfolding trailing
  trailing-Known metric [] h = Ensures-ok _ tt
  trailing-Known metric (a ∷ []) h = Ensures-ok _ tt
  trailing-Known metric (a ∷ b ∷ []) h = Ensures-ok _ tt
  trailing-Known metric (a ∷ b ∷ c ∷ []) h = Ensures-ok _ tt
  trailing-Known metric (a ∷ b ∷ c ∷ d ∷ rest) h =
      let later = trailing-Known metric (b ∷ c ∷ d ∷ rest) h.1 in
      Ensures-if (is_year a b c d) _ (trailing metric (b ∷ c ∷ d ∷ rest))
        (λ e.
          Ensures-bind (calculate_figure sum metric a.period_start d.period_end a (b ∷ c ∷ d ∷ []))
            _
            (λ year y. Ensures-bind (trailing metric (b ∷ c ∷ d ∷ rest)) _ (λ years ys.
              Ensures-ok _ (
                calculate_figure-Known cutoff sum metric a.period_start d.period_end a
                    (b ∷ c ∷ d ∷ []) y h.0 (h.1.0, (h.1.1.0, (h.1.1.1.0, tt))),
                later.returned years ys,
              ))))
        (λ e. later)

  trailing_all-Known :
      (table : Table) (metrics : List String)
      → KnownTable cutoff table
      → Ensures (All (Known cutoff)) (trailing_all table metrics)
  unfolding trailing_all
  trailing_all-Known table [] h = Ensures-ok _ tt
  trailing_all-Known table (m ∷ ms) h =
      let rest = trailing_all-Known table ms h in
      let quarters = sorted ends_earlier (held_figures (is_metric m) table) in
      Ensures-if (is_flow m) _ (trailing_all table ms)
        (λ e. Ensures-bind (trailing m quarters) _ (λ years ys.
          Ensures-bind (trailing_all table ms) _ (λ others os. Ensures-ok _ (
            All-append (Known cutoff) years others
              ((trailing-Known m quarters (
                  All-sorted ends_earlier (Known cutoff) _
                    (held_figures-Known (is_metric m) table h))).returned
                years ys)
              (rest.returned others os)))))
        (λ e. rest)

  output_of-Known :
      (frequency : Frequency) (metrics : List String) (years quarters : Table)
      → KnownTable cutoff years
      → KnownTable cutoff quarters
      → Ensures (All (Known cutoff)) (output_of frequency metrics years quarters)
  unfolding output_of
  output_of-Known annual metrics years quarters h k =
      Ensures-ok _ (held_figures-Known (is_asked metrics) years h)
  output_of-Known quarterly metrics years quarters h k =
      Ensures-ok _ (held_figures-Known (is_asked metrics) quarters k)
  output_of-Known ttm metrics years quarters h k = trailing_all-Known quarters metrics k

  tables_of-Known :
      (src : Sources) (date_to : ℕ) → Ensures (KnownProgress cutoff) (tables_of src cutoff date_to)
  unfolding tables_of
  tables_of-Known src date_to =
      let selected = figures (select_rows src cutoff date_to) in
      let known = select_rows-Known cutoff src date_to in
      enter_all-Known cutoff src cutoff selected selected _ known known (tt, tt)

  completed-Known :
      (src : Sources) (date_to : ℕ) (p : Progress)
      → KnownProgress cutoff p
      → Ensures (KnownProgress cutoff) (completed src cutoff date_to p)
  unfolding completed
  completed-Known src date_to p h =
      complete-Known cutoff src (figures (select_rows src cutoff date_to)) _ _ _
        (screen p.annual p.quarterly) (select_rows-Known cutoff src date_to)
        (screen-Known cutoff p.annual p.quarterly h.0 h.1)

  abbrev KnownResult : HistoryResult → Type 0
  KnownResult r = All (Known cutoff) r.observations

  history_of-Known :
      (src : Sources) (metrics : List String) (frequency : Frequency) (date_from date_to : ℕ)
      → Ensures KnownResult (history_of src metrics frequency date_from date_to cutoff)
  unfolding history_of publish
  history_of-Known src metrics frequency date_from date_to =
      Ensures-bind (tables_of src cutoff date_to) _ (λ p e.
        Ensures-bind (completed src cutoff date_to p) _ (λ c d.
          let known =
            (completed-Known src date_to p ((tables_of-Known src date_to).returned p e)).returned c
              d in
          Ensures-bind (output_of frequency metrics c.annual c.quarterly) _ (λ found f.
            Ensures-ok _ (
              All-sorted before (Known cutoff) _ (
                All-keep_of (Known cutoff) (is_published src.quarantined_metrics date_from date_to)
                  found
                  ((output_of-Known frequency metrics c.annual c.quarterly known.0 known.1).returned
                    found f))))))

  history_named-Known :
      (src : Sources) (metrics : List String) (frequency : Option Frequency) (date_from date_to : ℕ)
      → Ensures KnownResult (history_named src metrics frequency date_from date_to cutoff)
  unfolding history_named
  history_named-Known src metrics none date_from date_to = Ensures-err "INVALID_FREQUENCY"
  history_named-Known src metrics (some f) date_from date_to =
      Ensures-if (valid_range date_from date_to) _ _
        (λ e. history_of-Known src metrics f date_from date_to)
        (λ e. Ensures-err "INVALID_DATE_RANGE")

-- A history looks no further than its cutoff: every figure that it publishes, a reported one, a quarter that
-- is the difference of two cumulative figures, a sum of four quarters, a debt that is the sum of its
-- components or a free cash flow, became available at the cutoff at the latest, for any sources.
pub history-Known :
    (approved : Bool) (src : Sources) (metrics : List String) (frequency : String)
    (date_from date_to : ℕ) (cutoff : String) {r : HistoryResult}
    → history approved src metrics frequency date_from date_to cutoff ≡ ok r
    → All (Known cutoff) r.observations
unfolding history
history-Known approved src metrics frequency date_from date_to cutoff h =
    let (a, h1) = otherwise (not approved) "UNAPPROVED_SOURCE" _ h in
    let (m, h2) = otherwise (not (valid_metrics metrics)) "INVALID_METRIC" _ h1 in
    (history_named-Known cutoff src metrics (frequency_named frequency) date_from date_to).returned
      _ h2
