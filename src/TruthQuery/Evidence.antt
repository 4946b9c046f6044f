-- ===== src/TruthQuery/Evidence.antt =====
-- truth_query.py: which rows of evidence answer a query, as of an instant in microseconds.
use zion_terminal.Base.{
  Bool, true, false, Option, none, some, List, [], ◌∷◌, ◌++◌, String, str_eq, if◌then◌else◌, keep,
  get_last?,
}
use zion_terminal.Base.Result.{ok, err}
use zion_terminal.Base.Int.{ℤ, leb_ℤ}
use zion_terminal.Base.Json.{Json, Fields, null, str, get, is_str}
use zion_terminal.Temporal.Instants.{
  Timed, as_datetime, parse_instant, normalize_source_instant, TemporalInstant,
}
use zion_terminal.TruthQuery.Plan.{Queried, invalid_request}

-- The microseconds of an instant; a TemporalError is an invalid request.
unfoldable pub requested : Timed TemporalInstant → Queried (Option ℤ)
unfolding as_datetime
requested (ok t) = ok (some (as_datetime t))
requested (err e) = err invalid_request

-- `_as_of`
unfoldable pub as_of_value : Json → Queried (Option ℤ)
unfolding requested parse_instant
as_of_value null = ok none
as_of_value (str s) = if str_eq s "" then ok none else requested (parse_instant (str s))
as_of_value _ = err invalid_request

abbrev pub value_of : Timed TemporalInstant → Option ℤ
value_of (ok t) = some (as_datetime t)
value_of (err e) = none

-- `_source_as_of`
unfoldable pub source_as_of : Json → Option ℤ
unfolding as_datetime normalize_source_instant
source_as_of null = none
source_as_of (str s) = if str_eq s "" then none else value_of (normalize_source_instant (str s))
source_as_of x = value_of (normalize_source_instant x)

-- The row was available at the instant, if there is one.
unfoldable pub is_available : Option ℤ → Fields → Bool
unfolding source_as_of
is_available none row = true
is_available (some limit) row = elim (source_as_of (get "available_at" row)) [
  | none ↦ false
  | some t ↦ leb_ℤ t limit
]

abbrev pub has_metric : String → Fields → Bool
has_metric metric row = is_str (get "metric" row) metric

unfoldable pub candidates_for : List Fields → Option ℤ → String → List Fields
unfolding is_available
candidates_for evidence as_of metric = keep (is_available as_of) (keep (has_metric metric) evidence)

abbrev pub last_row : List Fields → List Fields
last_row rows = elim (get_last? rows) [ none ↦ [] | some row ↦ row ∷ [] ]

-- `_filter_evidence`
unfoldable pub filter_evidence : List Fields → List String → Option ℤ → List Fields
unfolding candidates_for
filter_evidence evidence [] as_of = []
filter_evidence evidence (metric ∷ metrics) as_of =
    last_row (candidates_for evidence as_of metric) ++ filter_evidence evidence metrics as_of
