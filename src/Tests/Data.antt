-- ===== src/Tests/Data.antt =====
-- Concrete adapters, items and draws.
use zion_terminal.Base.{true, false, none, List, [], ◌∷◌, String}
use zion_terminal.Base.Result.{Result, ok, err}
use zion_terminal.Base.Int.{pos, negsuc}
use zion_terminal.Base.Json.{Fields, null, str, end, field, int}
use zion_terminal.Models.Responses.{RetrievalResult}
use zion_terminal.Retrieval.{Adapter, Adapters, Task, ticker_task}
use zion_terminal.Orchestrator.{Orchestrator}
use zion_terminal.Synthesis.{Draws, World, Params}

-- A value of a result, or another value if it raises.
abbrev pub value_or {ℓ} : {E A : Type ℓ} → A → Result E A → A
value_or d (ok a) = a
value_or d (err e) = d

abbrev pub quote_item : Fields
quote_item = field "source" (str "yahoo_finance") (field "price" (int 150) end)

abbrev pub free_item : Fields
free_item = field "source" (str "yahoo_finance") (field "price" (int 0) end)

abbrev pub answer_with : String → List Fields → RetrievalResult
answer_with name items = record {
  success = true;
  items = items;
  sources_used = name ∷ [];
  cached = false;
  errors = [];
  warnings = [];
  fallback_used = false;
  actual_source = name;
}

abbrev pub yahoo : Adapter
yahoo = record {
  source_name = "yahoo_finance";
  fetch_task = λ t. answer_with "yahoo_finance" (quote_item ∷ []);
}

abbrev pub fred : Adapter
fred = record { source_name = "fred"; fetch_task = λ t. answer_with "fred" [] }

abbrev pub two_adapters : Adapters
two_adapters = yahoo ∷ fred ∷ []

abbrev pub strict_orchestrator : Orchestrator
strict_orchestrator = record { adapters = two_adapters; strict = true; llm_name = "none" }

abbrev pub quote_tasks : List Task
quote_tasks = ticker_task "yahoo_finance" "AAPL" "quote" end ∷ []

-- A filing task that names a source which is not registered.
abbrev pub filing_task : Task
filing_task = ticker_task "sec_edgar" "AAPL" "filings" end

abbrev pub some_draws : Draws
some_draws = record {
  company = field "name" (str "Nova Systems") (field "ticker" (str "NOS") end);
  revenue = pos 1000000;
  cogs = pos 400000;
  sga = pos 150000;
  rnd = pos 100000;
  interest = pos 20000;
  tax = λ z. pos 60000;
  cash = λ z. pos 900000;
  receivables = λ z. pos 200000;
  inventory = λ z. pos 80000;
  ppe = λ z. pos 2000000;
  goodwill = λ z. pos 300000;
  payables = λ z. pos 70000;
  short_debt = λ z. pos 90000;
  long_debt = λ z. pos 5000000;
  retained_earnings = λ z. z;
  depreciation = λ z. pos 60000;
  wc_change = λ z. negsuc 1000;
  capex = λ z. pos 90000;
  acquisitions = λ z. pos 10000;
  debt_change = λ z. negsuc 5000;
  dividends = λ z. pos 30000;
  buybacks = λ z. pos 0;
}

-- A world whose language model answers nothing.
abbrev pub quiet_world : World
quiet_world = record {
  draws = λ seed others. some_draws;
  stable_seed = λ query. 7;
  llm_available = true;
  press_release = λ d i. ok null;
}

abbrev pub no_params : Params
no_params = record { seed = none; others = end }
