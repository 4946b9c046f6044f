-- ===== src/Validation/Synthesis.antt =====
-- agents/validation/agent.py, `validate_synthesis`: the checks on generated documents and across
-- them.
use zion_terminal.Base.{◌*◌, Bool, ◌&&◌, List, [], ◌∷◌, ◌++◌, String, ltb, if◌then◌else◌}
use zion_terminal.Base.Result.{ok, err, ◌>>=◌}
use zion_terminal.Base.Int.{ℤ, ◌-ℤ◌, abs}
use zion_terminal.Base.Json.{
  Json, Fields, num, str, arr, obj, end, one, get, contains, is_set, is_str,
}
use zion_terminal.Models.Responses.{
  passed, failed, Text, plain, filled, ValidationCheck, ValidationResult, SynthesisResult,
}
use zion_terminal.Validation.Checks.{Checked, type_error, check, number, dict}
use zion_terminal.Validation.Agent.{build_result}

-- `doc.get(k, default)`
abbrev pub get_default : String → Json → Fields → Json
get_default k default d = if contains k d then get k d else default

-- A dict key must be hashable.
abbrev pub hashable : Json → Checked Json
hashable (arr _) = err type_error
hashable (obj _) = err type_error
hashable x = ok x

-- `abs(a - b) < 2`
abbrev pub within_two : ℤ → ℤ → Bool
within_two a b = ltb (abs (a -ℤ b)) (2 * one)

-- The names among "type" and "data" that the document lacks.
unfoldable pub missing_fields : Fields → List Json
missing_fields doc =
    (if contains "type" doc then [] else str "type" ∷ [])
    ++ (if contains "data" doc then [] else str "data" ∷ [])

unfoldable pub required_check : Json → List Json → ValidationCheck
required_check doc_type [] =
    check "required_fields" passed
      (filled "{doc_type}: all required fields present" (doc_type ∷ []))
      (filled "{doc_type}" (doc_type ∷ []))
required_check doc_type (m ∷ ms) =
    check "required_fields" failed (filled "{doc_type}: missing {missing}" (doc_type ∷ m ∷ ms))
      (filled "{doc_type}" (doc_type ∷ []))

-- A check of two amounts that have to agree to within 2.
unfoldable pub agreement : String → Text → Text → Text → Json → Json → Bool → ValidationCheck
agreement name good bad location expected actual within =
    if within then check name passed good location else record {
      check_name = name;
      status = failed;
      message = bad;
      location = location;
      expected = expected;
      actual = actual;
    }

-- Two amounts that have to agree, when both are there; `name` is the check's.
unfoldable pub compare_amounts :
    String → Text → String → Text → Json → Json → Checked (List ValidationCheck)
unfolding agreement
compare_amounts name good bad location a b =
    if is_set a && is_set b
    then (do
      x ← number a
      y ← number b
      ok (agreement name good (filled bad (a ∷ b ∷ [])) location a b (within_two x y) ∷ []))
    else ok []

-- Revenue minus cost against the gross profit.
unfoldable pub gross_profit_check : Json → Json → Json → Checked (List ValidationCheck)
unfolding agreement
gross_profit_check revenue cogs gp =
    if is_set revenue && (is_set cogs && is_set gp)
    then (do
      r ← number revenue
      c ← number cogs
      g ← number gp
      ok (
          agreement "gross_profit_math" (plain "revenue - COGS = gross profit")
            (filled "revenue({revenue}) - COGS({cogs}) = {expected}, got {gp}"
              (revenue ∷ cogs ∷ num (r -ℤ c) ∷ gp ∷ []))
            (plain "income_statement") (num (r -ℤ c)) gp (within_two (r -ℤ c) g)
          ∷ []))
    else ok []

unfoldable pub income_statement_checks : Json → Checked (List ValidationCheck)
unfolding gross_profit_check
income_statement_checks (obj statement) =
    gross_profit_check (get "total_revenue" statement) (get "cost_of_revenue" statement)
      (get "gross_profit" statement)
income_statement_checks _ = ok []

unfoldable pub income_document : Json → Json → Checked (List ValidationCheck)
unfolding income_statement_checks
income_document doc_type content =
    if is_str doc_type "income_statement" then income_statement_checks content else ok []

abbrev pub type_of : Fields → Json
type_of = get_default "type" (str "unknown")

abbrev pub data_of : Fields → Json
data_of = get_default "data" (obj end)

-- One round of the loop over the documents.
unfoldable pub document_checks : Fields → Checked (List ValidationCheck)
unfolding missing_fields required_check income_document
document_checks doc = do
  doc_type ← hashable (type_of doc)
  income ← income_document doc_type (data_of doc)
  ok (required_check doc_type (missing_fields doc) ∷ income)

unfoldable pub all_document_checks : List Fields → Checked (List ValidationCheck)
unfolding document_checks
all_document_checks [] = ok []
all_document_checks (doc ∷ docs) = do
  first ← document_checks doc
  rest ← all_document_checks docs
  ok (first ++ rest)

-- `statements.get(name, {})`: a later document of the same type replaces an earlier one.
unfoldable pub statement : String → Json → List Fields → Json
statement name found [] = found
statement name found (doc ∷ docs) =
    statement name (if is_str (type_of doc) name then data_of doc else found) docs

-- Assets against liabilities and equity.
unfoldable pub identity_checks : Json → Checked (List ValidationCheck)
unfolding compare_amounts
identity_checks balance_sheet = do
  bs ← dict balance_sheet
  compare_amounts "accounting_identity" (plain "Assets = Liabilities + Equity")
      "Assets({total_assets}) != L+E({total_liabilities_and_equity})" (plain "balance_sheet")
      (get "total_assets" bs) (get "total_liabilities_and_equity" bs)

-- `cf.get` is called only where the balance sheet has cash.
unfoldable pub cash_checks : Json → Json → Checked (List ValidationCheck)
unfolding compare_amounts
cash_checks balance_sheet cash_flow = do
  bs ← dict balance_sheet
  cf ← if is_set (get "cash_and_equivalents" bs) then dict cash_flow else ok end
  compare_amounts "cash_reconciliation" (plain "BS cash = CF ending cash")
      "BS cash({cash_and_equivalents}) != CF ending({ending_cash})" (plain "cross_document")
      (get "cash_and_equivalents" bs) (get "ending_cash" cf)

-- `validate_synthesis`
unfoldable pub validate_synthesis : SynthesisResult → Checked ValidationResult
unfolding all_document_checks statement identity_checks cash_checks
validate_synthesis result = do
  let bs = statement "balance_sheet" (obj end) result.documents
  let cf = statement "cash_flow_statement" (obj end) result.documents
  checks ← all_document_checks result.documents
  identity ← identity_checks bs
  cash ← cash_checks bs cf
  ok (build_result (checks ++ (identity ++ cash)))
