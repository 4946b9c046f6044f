-- ===== src/EquityClaims/Selection.antt =====
-- equity_claims.py: the choice of the latest eligible fact of a concept.
use zion_terminal.Base.{
  ℕ, ◌-◌, Bool, false, not, ◌&&◌, Option, none, some, List, [], ◌∷◌, String, str_eq, leb, keep,
  if◌then◌else◌,
}
use zion_terminal.Base.Int.{ℤ}
use zion_terminal.Base.Result.{ok, err, ◌>>=◌}
use zion_terminal.Base.Json.{Json, null, bool, str, obj, Fields, get, contains, is_set}
use zion_terminal.Base.Texts.{str_leb}
use zion_terminal.EquityClaims.Facts.{
  Claimed, Reader, Token, find, finite, invalid_token, nonfinite, nonfinite_token, overflow_error,
  rows_at, text_day, unreadable,
}

-- MAX_AGE_DAYS
abbrev pub max_age_days : ℕ
max_age_days = 400

unfoldable pub in_window : ℕ → Option ℕ → Option ℕ → Bool
in_window valuation (some ended) (some filed) =
    leb filed valuation && (leb (valuation - max_age_days) ended && leb ended valuation)
in_window valuation _ _ = false

module _ (R : Reader) (valuation : ℕ) where
  unfoldable pub is_eligible : Json → Bool
  unfolding in_window text_day
  is_eligible (obj row) =
      contains "val" row
      && not (contains "start" row)
      && not (is_set (get "segment" row))
      && in_window valuation (text_day R (get "end" row)) (text_day R (get "filed" row))
  is_eligible _ = false

  -- The first date of Python is the ordinal 1, and none is before it.
  unfoldable pub in_time : Option (List Json) → Claimed (List Json)
  unfolding is_eligible
  in_time none = ok []
  in_time (some rows) =
      if leb valuation max_age_days then err overflow_error else ok (keep is_eligible rows)

  unfoldable pub eligible : String → String → String → Fields → Claimed (List Json)
  unfolding in_time rows_at
  eligible taxonomy concept unit facts = do rows ← rows_at taxonomy concept unit facts; in_time rows

-- `source`, without the digest; `reported` is the value in the row.
pub record Source : Type 0 where
  pub taxonomy : String
  pub concept : String
  pub unit : String
  pub reported : Json
  pub value : ℤ
  pub period_end : String
  pub form : Json
  pub accession : Json
  pub filed : String

unfoldable pub text_in : String → Json → String
text_in k (obj row) = elim (get k row) [ str s ↦ s | _ ↦ "" ]
text_in k _ = ""

unfoldable pub value_in : String → Json → Json
value_in k (obj row) = get k row
value_in k _ = null

unfoldable pub read_token : Token → Claimed ℤ
read_token (finite z) = ok z
read_token nonfinite = err nonfinite_token
read_token unreadable = err invalid_token

unfoldable pub decimal_token : Reader → Json → Claimed ℤ
unfolding read_token
decimal_token R null = err invalid_token
decimal_token R (bool b) = err invalid_token
decimal_token R x = read_token (R.decimal x)

-- `str(row.get("accn", ""))`
unfoldable pub accession_text : Reader → Json → String
unfolding find
accession_text R (obj row) = elim (find "accn" row) [ none ↦ "" | some x ↦ R.text x ]
accession_text R _ = ""

-- A row that is later, by its end, then by its filing, then by its accession.
unfoldable pub later_filed : Reader → Json → Json → Bool
unfolding text_in accession_text
later_filed R a b =
    if str_eq (text_in "filed" a) (text_in "filed" b)
    then not (str_leb (accession_text R a) (accession_text R b))
    else not (str_leb (text_in "filed" a) (text_in "filed" b))

-- `max(rows, key=...)`: the first of the greatest
unfoldable pub latest_filed : Reader → Json → List Json → Json
unfolding later_filed
latest_filed R best [] = best
latest_filed R best (row ∷ rows) =
    latest_filed R (if later_filed R row best then row else best) rows

unfoldable pub latest_end : String → List Json → String
unfolding text_in
latest_end best [] = best
latest_end best (row ∷ rows) =
    latest_end (if str_leb (text_in "end" row) best then best else text_in "end" row) rows

unfoldable pub at_end : String → Json → Bool
unfolding text_in
at_end ended row = str_eq (text_in "end" row) ended

unfoldable pub best_of : Reader → List Json → Option Json
unfolding latest_filed
best_of R [] = none
best_of R (row ∷ rows) = some (latest_filed R row rows)

module _ (R : Reader) (taxonomy concept unit : String) where
  unfoldable pub source_of : Json → Claimed Source
  unfolding decimal_token text_in value_in
  source_of row = do
    z ← decimal_token R (value_in "val" row)
    ok (record {
      taxonomy = taxonomy;
      concept = concept;
      unit = unit;
      reported = value_in "val" row;
      value = z;
      period_end = text_in "end" row;
      form = value_in "form" row;
      accession = value_in "accn" row;
      filed = text_in "filed" row;
    })

  unfoldable pub sourced : Option Json → Claimed (Option Source)
  unfolding source_of
  sourced none = ok none
  sourced (some row) = do s ← source_of row; ok (some s)

  unfoldable pub choose : List Json → Claimed (Option Source)
  unfolding sourced best_of at_end latest_end text_in
  choose [] = ok none
  choose (row ∷ rows) =
      sourced (best_of R (keep (at_end (latest_end (text_in "end" row) rows)) (row ∷ rows)))

  unfoldable pub selected : ℕ → Fields → Claimed (Option Source)
  unfolding eligible choose
  selected valuation facts = do rows ← eligible R valuation taxonomy concept unit facts; choose rows
