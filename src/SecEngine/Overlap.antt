-- ===== src/SecEngine/Overlap.antt =====
-- sec_engine.py: the part of `history` that withholds figures of one metric whose periods end on one day but
-- start on different ones, and the figures that were derived from them.
use zion_terminal.Base.{
  ℕ, Bool, true, false, ◌&&◌, ◌||◌, not, none, some, List, [], ◌∷◌, ◌++◌, String, str_eq, ◌==◌, ltb,
  count_if, if◌then◌else◌, is_some,
}
use zion_terminal.Retrieval.{member}
use zion_terminal.SecEngine.Sources.{Gap}
use zion_terminal.SecEngine.Periods.{Key, Slot, ambiguous, held, Table, gap_of}

-- A figure of a period that has a start.
abbrev pub is_held : Slot → Bool
is_held ambiguous = false
is_held (held f) = true

abbrev pub ends_with : Key → Key × Slot → Bool
ends_with key (k, slot) =
    is_held slot
    && (is_some k.period_start && (str_eq k.metric key.metric && k.period_end == key.period_end))

-- More than one figure of the metric ends on the day.
unfoldable pub is_crowded : Table → Key → Bool
is_crowded table key = ltb 1 (count_if (ends_with key) table)

-- The slot is one of several that end on its day.
unfoldable pub overlaps : Table → Key → Slot → Bool
unfolding is_crowded
overlaps table key slot = is_held slot && (is_some key.period_start && is_crowded table key)

unfoldable pub withhold_from : Table → Table → Table
unfolding overlaps
withhold_from table [] = []
withhold_from table ((k, slot) ∷ rest) =
    (k, if overlaps table k slot then ambiguous else slot) ∷ withhold_from table rest

abbrev pub slot_ids : Slot → List String
slot_ids ambiguous = []
slot_ids (held f) = f.source_observation_ids

-- `ambiguous_ids`
unfoldable pub overlap_ids : Table → Table → List String
unfolding overlaps
overlap_ids table [] = []
overlap_ids table ((k, slot) ∷ rest) =
    let more = overlap_ids table rest in
    if overlaps table k slot then slot_ids slot ++ more else more

abbrev pub end_gap : String → ℕ → String → Gap
end_gap metric ending reason = record {
  metric = metric;
  period_start = none;
  period_end = some ending;
  reason = reason;
}

-- The slot is the first of its metric and day.
unfoldable pub is_seen : Key → Table → Bool
is_seen key [] = false
is_seen key (entry ∷ rest) = ends_with key entry || is_seen key rest

unfoldable pub overlap_gaps : Table → Table → Table → List Gap
unfolding overlaps is_seen
overlap_gaps table seen [] = []
overlap_gaps table seen ((k, slot) ∷ rest) =
    let more = overlap_gaps table (seen ++ (k, slot) ∷ []) rest in
    if overlaps table k slot && not (is_seen k seen)
    then end_gap k.metric k.period_end "OVERLAPPING_FISCAL_CONTEXTS" ∷ more
    else more

-- A derived figure that rests on a withheld one.
unfoldable pub shares_id : List String → List String → Bool
unfolding member
shares_id ids [] = false
shares_id ids (s ∷ ss) = member s ids || shares_id ids ss

unfoldable pub rests_on : List String → Slot → Bool
unfolding shares_id
rests_on ids ambiguous = false
rests_on ids (held f) = f.is_derived && shares_id ids f.source_observation_ids

unfoldable pub withhold_derived : List String → Table → Table
unfolding rests_on
withhold_derived ids [] = []
withhold_derived ids ((k, slot) ∷ rest) =
    (k, if rests_on ids slot then ambiguous else slot) ∷ withhold_derived ids rest

unfoldable pub derived_gaps : List String → Table → List Gap
unfolding rests_on
derived_gaps ids [] = []
derived_gaps ids ((k, slot) ∷ rest) =
    let more = derived_gaps ids rest in
    if rests_on ids slot then gap_of k "DERIVATION_USES_AMBIGUOUS_FISCAL_CONTEXT" ∷ more else more

-- Both tables, after the figures that overlap and what rests on them.
pub record Screened : Type 0 where
  pub annual : Table
  pub quarterly : Table
  pub gaps : List Gap

unfoldable pub screen : Table → Table → Screened
unfolding withhold_from withhold_derived overlap_ids overlap_gaps derived_gaps
screen annual quarterly =
    let ids = overlap_ids annual annual ++ overlap_ids quarterly quarterly in
    let years = withhold_from annual annual in
    let quarters = withhold_from quarterly quarterly in
    record {
      annual = withhold_derived ids years;
      quarterly = withhold_derived ids quarters;
      gaps =
          overlap_gaps annual [] annual
          ++ (overlap_gaps quarterly [] quarterly
              ++ (derived_gaps ids years ++ derived_gaps ids quarters));
    }
