-- ===== src/Temporal/Leakage.antt =====
-- temporal.py: `validate_leakage`, which refuses rows that were not available at the cutoff.
use zion_terminal.Base.{false, not, List, [], ◌∷◌, str_eq, All, ◌≡◌, arith, if◌then◌else◌}
use zion_terminal.Base.Result.{ok, err, ◌>>=◌, >>=-eq-ok, otherwise}
use zion_terminal.Base.Int.{ℤ, ◌≤ℤ◌, ltb_ℤ}
use zion_terminal.Base.Json.{
  Json, Fields, str, arr, obj, end, field, get, contains, truthy, to_list,
}
use zion_terminal.Temporal.Instants.{
  Timed, no_offset, missing_available, leaked, precedes, not_iterable, TemporalInstant,
  parse_instant,
}

-- The names of the fields of a dict, over which Python iterates.
abbrev pub keys : Fields → List Json
keys end = []
keys (field k v d) = str k ∷ keys d

-- What `for input_time in value` goes over; a text is refused at its first character, which is no
-- instant.
unfoldable pub iterated : Json → Timed (List Json)
iterated (arr xs) = ok (to_list xs)
iterated (obj d) = ok (keys d)
iterated (str s) = if str_eq s "" then ok [] else err no_offset
iterated _ = err not_iterable

-- `row.get("input_available_at", [])`
unfoldable pub input_times : Fields → Timed (List Json)
unfolding iterated
input_times row =
    if contains "input_available_at" row then iterated (get "input_available_at" row) else ok []

-- No input is later than the row that is derived from it.
unfoldable pub check_inputs : ℤ → List Json → Timed (Unit {0})
check_inputs available [] = ok tt
check_inputs available (x ∷ xs) =
    let rest = check_inputs available xs in
    parse_instant x >>= λ t. if ltb_ℤ available t.epoch_ns then err precedes else rest

-- One row.
unfoldable pub check_row : ℤ → Fields → Timed (Unit {0})
unfolding input_times check_inputs
check_row cutoff row =
    if not (truthy (get "available_at" row))
    then err missing_available
    else (parse_instant (get "available_at" row) >>= λ t.
        if ltb_ℤ cutoff t.epoch_ns
        then err leaked
        else (input_times row >>= λ xs. check_inputs t.epoch_ns xs))

unfoldable pub check_rows : ℤ → List Fields → Timed (Unit {0})
unfolding check_row
check_rows cutoff [] = ok tt
check_rows cutoff (row ∷ rows) =
    let rest = check_rows cutoff rows in check_row cutoff row >>= λ u. rest

-- `validate_leakage`
unfoldable pub validate_leakage : List Fields → Json → Timed (Unit {0})
unfolding check_rows
validate_leakage rows as_of = parse_instant as_of >>= λ t. check_rows t.epoch_ns rows

-- The instant that a value names is not after `limit`.
abbrev pub Until : ℤ → Json → Type 0
Until limit x = (t : TemporalInstant) × (parse_instant x ≡ ok t) × (t.epoch_ns ≤ℤ limit)

-- A row that was available at the cutoff, and whose inputs were available when it was.
pub record Published (cutoff : ℤ) (row : Fields) : Type 0 where
  pub available : TemporalInstant
  pub available_at : parse_instant (get "available_at" row) ≡ ok available
  pub not_later : available.epoch_ns ≤ℤ cutoff
  pub inputs : List Json
  pub inputs_of : input_times row ≡ ok inputs
  pub inputs_before : All (Until available.epoch_ns) inputs

at_most : (a b : ℤ) → ltb_ℤ b a ≡ false → a ≤ℤ b
at_most a b h = ground arith

check_inputs-Until :
    (limit : ℤ) (xs : List Json) {u : Unit {0}}
    → check_inputs limit xs ≡ ok u
    → All (Until limit) xs
unfolding check_inputs
check_inputs-Until limit [] h = tt
check_inputs-Until limit (x ∷ xs) h =
    let (t, ht, k) = >>=-eq-ok (parse_instant x) _ h in
    let (early, rest) = otherwise _ _ _ k in
    ((t, ht, at_most t.epoch_ns limit early), check_inputs-Until limit xs rest)

check_row-Published :
    (cutoff : ℤ) (row : Fields) {u : Unit {0}} → check_row cutoff row ≡ ok u → Published cutoff row
unfolding check_row
check_row-Published cutoff row h =
    let (present, k) = otherwise _ _ _ h in
    let (t, ht, l) = >>=-eq-ok (parse_instant (get "available_at" row)) _ k in
    let (early, m) = otherwise _ _ _ l in
    let (xs, hx, n) = >>=-eq-ok (input_times row) _ m in
    record {
      available = t;
      available_at = ht;
      not_later = at_most t.epoch_ns cutoff early;
      inputs = xs;
      inputs_of = hx;
      inputs_before = check_inputs-Until t.epoch_ns xs n;
    }

check_rows-Published :
    (cutoff : ℤ) (rows : List Fields) {u : Unit {0}}
    → check_rows cutoff rows ≡ ok u
    → All (Published cutoff) rows
unfolding check_rows
check_rows-Published cutoff [] h = tt
check_rows-Published cutoff (row ∷ rows) h =
    let (v, hv, k) = >>=-eq-ok (check_row cutoff row) _ h in
    (check_row-Published cutoff row hv, check_rows-Published cutoff rows k)

-- Rows that pass the validation do not look ahead: the cutoff is an instant, every row was available
-- at it, and every input of a row was available no later than the row itself.
pub validate_leakage-Published :
    (rows : List Fields) (as_of : Json) {u : Unit {0}}
    → validate_leakage rows as_of ≡ ok u
    → (cutoff : TemporalInstant) × (parse_instant as_of ≡ ok cutoff)
      × All (Published cutoff.epoch_ns) rows
unfolding validate_leakage
validate_leakage-Published rows as_of h =
    let (t, ht, k) = >>=-eq-ok (parse_instant as_of) _ h in
    (t, ht, check_rows-Published t.epoch_ns rows k)
