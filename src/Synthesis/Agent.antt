-- ===== src/Synthesis/Agent.antt =====
-- agents/synthesis/agent.py: `SynthesisAgent`. Each `round(x * rng.uniform(a, b))` is a function
-- that the random draws of one run fix: a rounded amount, from the amount that it is a share of.
use zion_terminal.Base.{
  ℕ, zero, suc, ◌+◌, Bool, true, false, Option, none, some, List, [], ◌∷◌, ◌++◌, String, ◌==◌,
  if◌then◌else◌,
}
use zion_terminal.Base.Result.{Result, ok, err, ◌>>=◌}
use zion_terminal.Base.Json.{Json, Fields, null, str, obj, end, field, get, truthy, int}
use zion_terminal.Models.Responses.{Text, filled, SynthesisResult}
use zion_terminal.Validation.{Checked}
use zion_terminal.Validation.Synthesis.{validate_synthesis}
use zion_terminal.Synthesis.Statements.{
  Draws, Income, balance_fields, cash_flow_fields, generate_balance, generate_cash_flow,
  generate_income, income_fields,
}

abbrev pub document : String → Json → Fields
document kind content = field "type" (str kind) (field "data" content end)

-- The four documents of one run.
unfoldable pub generated_documents : Draws → List Fields
unfolding generate_income generate_balance generate_cash_flow income_fields balance_fields
    cash_flow_fields
generated_documents d =
    let income = generate_income d in
    let balance = generate_balance d income in
    document "company_profile" (obj d.company)
    ∷ document "income_statement" (obj (income_fields income))
    ∷ document "balance_sheet" (obj (balance_fields balance))
    ∷ document "cash_flow_statement" (obj (cash_flow_fields (generate_cash_flow d income balance)))
    ∷ []

-- `params`: the seed, if it is given, and what else the generation reads.
pub record Params : Type 0 where
  pub seed : Option ℕ
  pub others : Fields

-- What lies outside: the random draws for a seed and parameters, the seed that is derived from the
-- query's SHA-256, and the press release of the language model. The model may be absent; it may
-- answer nothing (null); its call may raise.
pub record World : Type 0 where
  pub draws : ℕ → Fields → Draws
  pub stable_seed : String → ℕ
  pub llm_available : Bool
  pub press_release : Draws → Income → Result Text Json

unfoldable pub with_press_release : Draws → Result Text Json → SynthesisResult
unfolding generated_documents
with_press_release d (ok pr) = record {
  success = true;
  errors = [];
  documents = generated_documents d ++ (if truthy pr then document "press_release" pr ∷ [] else []);
  entity_name = get "name" d.company;
  entity_ticker = get "ticker" d.company;
}
with_press_release d (err message) = record {
  success = false;
  errors = message ∷ [];
  documents = [];
  entity_name = null;
  entity_ticker = null;
}

abbrev pub exhausted : ℕ → SynthesisResult
exhausted max_retries = record {
  success = false;
  errors =
      filled "Synthesis failed validation after {max_retries} attempts" (int max_retries ∷ []) ∷ [];
  documents = [];
  entity_name = null;
  entity_ticker = null;
}

-- One attempt's result, given the later attempts; `validated` tells whether there is a validator.
unfoldable pub attempt_or :
    Bool → SynthesisResult → Checked SynthesisResult → Checked SynthesisResult
attempt_or validated result rest =
    if result.success
    then (if validated
        then (validate_synthesis result >>= λ v. if v.checks_failed == 0 then ok result else rest)
        else ok result)
    else rest

module _ (w : World) where
  -- The draws of a run: its random generator starts from the given seed, or from the query's.
  abbrev pub drawn : String → Params → Draws
  drawn query params =
      w.draws (elim params.seed [ some s ↦ s | none ↦ w.stable_seed query ]) params.others

  -- The press release of a run, when there is a language model.
  abbrev pub press_of : Draws → Result Text Json
  press_of d = if w.llm_available then w.press_release d (generate_income d) else ok null

  -- `generate`
  unfoldable pub generate : String → Params → SynthesisResult
  unfolding with_press_release
  generate query params = with_press_release (drawn query params) (press_of (drawn query params))

  -- The loop with `left` attempts to go, the next with `seed`.
  unfoldable pub retry_from : String → Fields → Bool → ℕ → ℕ → ℕ → Checked SynthesisResult
  unfolding generate attempt_or
  retry_from query others validated max_retries zero seed = ok (exhausted max_retries)
  retry_from query others validated max_retries (suc left) seed =
      let rest = retry_from query others validated max_retries left (seed + 1) in
      attempt_or validated (generate query (record { seed = some seed; others = others })) rest

  -- `generate_with_retry`
  unfoldable pub generate_with_retry : String → Params → ℕ → Bool → Checked SynthesisResult
  unfolding retry_from
  generate_with_retry query params max_retries validated =
      let base_seed : ℕ = elim params.seed [ some s ↦ s | none ↦ w.stable_seed query ] in
      retry_from query params.others validated max_retries max_retries base_seed
