-- ===== src/SecEngine/Selection.antt =====
-- sec_engine.py: the first part of `history`, which keeps of every context what was available last at the
-- cutoff.
use zion_terminal.Base.{
  ℕ, Bool, false, ◌&&◌, ◌||◌, Option, some, List, [], ◌∷◌, ◌++◌, String, str_eq, ◌==◌, is_empty,
  keep, every, map, if◌then◌else◌,
}
use zion_terminal.Base.Int.{pos}
use zion_terminal.Base.Sorting.{sorted}
use zion_terminal.Base.Texts.{str_leb}
use zion_terminal.Retrieval.{distinct}
use zion_terminal.SecEngine.Decimals.{same_text, same_optional}
use zion_terminal.SecEngine.Derivation.{Figure, latest_text}
use zion_terminal.SecEngine.Sources.{Row, Rejected, Sources, Gap, same_start, is_available}

-- The key of a group.
pub record Context : Type 0 where
  pub metric : String
  pub concept : String
  pub period_start : Option ℕ
  pub period_end : ℕ

unfoldable pub same_context : Context → Context → Bool
same_context a b =
    str_eq a.metric b.metric
    && (str_eq a.concept b.concept
        && (same_start a.period_start b.period_start && a.period_end == b.period_end))

abbrev pub context_of : Row → Context
context_of row = record {
  metric = row.metric;
  concept = row.concept;
  period_start = row.period_start;
  period_end = row.period_end;
}

-- The contexts of the rows, in the order of their first rows.
unfoldable pub has_context : Context → List Context → Bool
unfolding same_context
has_context c [] = false
has_context c (d ∷ ds) = same_context d c || has_context c ds

unfoldable pub contexts_from : List Context → List Row → List Context
unfolding has_context
contexts_from seen [] = seen
contexts_from seen (row ∷ rows) =
    contexts_from (if has_context (context_of row) seen then seen else seen ++ context_of row ∷ [])
      rows

abbrev pub in_context : Context → Row → Bool
in_context c row = same_context (context_of row) c

-- A rejected context that is at least as recent as the latest row.
unfoldable pub blocks : Context → String → String → Rejected → Bool
unfolding str_leb
blocks c latest cutoff r =
    str_eq r.metric c.metric
    && (str_eq r.concept c.concept
        && (same_start r.period_start c.period_start
            && (r.period_end == c.period_end
                && (str_leb latest r.available_at && str_leb r.available_at cutoff))))

abbrev pub is_version : String → Row → Bool
is_version latest row = str_eq row.available_at latest

-- `min(..., key=source_observation_id)`
unfoldable pub least_row : Row → List Row → Row
unfolding str_leb
least_row a [] = a
least_row a (b ∷ rows) =
    least_row (if str_leb a.source_observation_id b.source_observation_id then a else b) rows

unfoldable pub figure_of : Row → List Row → Figure
unfolding sorted distinct
figure_of chosen versions = record {
  metric = chosen.metric;
  concept = chosen.concept;
  unit = chosen.unit;
  currency = chosen.currency;
  period_start = chosen.period_start;
  period_end = chosen.period_end;
  value_decimal = chosen.value_decimal;
  available_at = chosen.available_at;
  form = chosen.form;
  is_derived = false;
  source_terms =
      record { source_observation_id = chosen.source_observation_id; coefficient = pos 1 } ∷ [];
  source_observation_ids =
      sorted str_leb (distinct (map (λ (r : Row). r.source_observation_id) versions));
}

abbrev pub gap_at : Context → String → Gap
gap_at c reason = record {
  metric = c.metric;
  period_start = c.period_start;
  period_end = some c.period_end;
  reason = reason;
}

pub data Selected : Type 0 where
  chosen_figure : Figure → Selected
  withheld_gap : Gap → Selected

-- The latest versions agree on the value, or none is chosen.
unfoldable pub agree : Context → List Row → Selected
unfolding least_row figure_of same_text
agree c [] = withheld_gap (gap_at c "CONFLICTING_SOURCE_VALUES")
agree c (row ∷ rows) =
    if every (λ (r : Row). same_optional r.value_decimal row.value_decimal) rows
    then chosen_figure (figure_of (least_row row rows) (row ∷ rows))
    else withheld_gap (gap_at c "CONFLICTING_SOURCE_VALUES")

unfoldable pub select_latest : Sources → String → Context → List Row → String → Selected
unfolding blocks agree
select_latest src cutoff c rows latest =
    if is_empty (keep (blocks c latest cutoff) src.rejected_contexts)
    then agree c (keep (is_version latest) rows)
    else withheld_gap (gap_at c "LATEST_SOURCE_CONTEXT_INVALID_NO_OLDER_FALLBACK")

-- One group; a group has a row.
unfoldable pub select_group : Sources → String → Context → List Row → Selected
unfolding select_latest latest_text
select_group src cutoff c [] = withheld_gap (gap_at c "CONFLICTING_SOURCE_VALUES")
select_group src cutoff c (row ∷ rows) =
    select_latest src cutoff c (row ∷ rows)
      (latest_text row.available_at (map (λ (r : Row). r.available_at) rows))

unfoldable pub select_all : Sources → String → List Row → List Context → List Selected
unfolding select_group same_context
select_all src cutoff rows [] = []
select_all src cutoff rows (c ∷ cs) =
    select_group src cutoff c (keep (in_context c) rows) ∷ select_all src cutoff rows cs

unfoldable pub figures : List Selected → List Figure
figures [] = []
figures (chosen_figure f ∷ xs) = f ∷ figures xs
figures (withheld_gap g ∷ xs) = figures xs

unfoldable pub selection_gaps : List Selected → List Gap
selection_gaps [] = []
selection_gaps (chosen_figure f ∷ xs) = selection_gaps xs
selection_gaps (withheld_gap g ∷ xs) = g ∷ selection_gaps xs

-- `selected`, with the gaps
unfoldable pub select_rows : Sources → String → ℕ → List Selected
unfolding select_all contexts_from is_available
select_rows src cutoff date_to =
    let rows = keep (is_available cutoff date_to) src.observations in
    select_all src cutoff rows (contexts_from [] rows)
