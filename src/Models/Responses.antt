-- ===== src/Models/Responses.antt =====
-- src/zion_terminal/models/responses.py: what each agent returns.
-- Timestamps and the free-form `metadata` of an agent are not modelled: no code under study
-- reads them.
use zion_terminal.Base.{ℕ, String, Bool, List, [], ◌∷◌, ◌++◌, is_empty}
use zion_terminal.Base.Json.{Json, Fields}

pub data ValidationStatus : Type 0 where
  passed failed warning : ValidationStatus

-- A formatted text: the template as the source writes it, and the values it is filled with.
pub record Text : Type 0 where
  pub template : String
  pub values : List Json

abbrev pub plain : String → Text
plain s = record { template = s; values = [] }

abbrev pub filled : String → List Json → Text
filled s vs = record { template = s; values = vs }

pub record RetrievalResult : Type 0 where
  pub success : Bool
  pub items : List Fields
  pub sources_used : List String
  pub cached : Bool
  pub errors : List Text
  pub warnings : List Text
  pub fallback_used : Bool
  pub actual_source : String

-- `RetrievalResult.is_empty`
unfoldable pub no_items : RetrievalResult → Bool
no_items r = is_empty r.items

pub record SynthesisResult : Type 0 where
  pub success : Bool
  pub errors : List Text
  pub documents : List Fields
  pub entity_name : Json
  pub entity_ticker : Json

pub record ValidationCheck : Type 0 where
  pub check_name : String
  pub status : ValidationStatus
  pub message : Text
  pub location : Text
  pub expected : Json
  pub actual : Json

pub record ValidationResult : Type 0 where
  pub success : Bool
  pub status : ValidationStatus
  pub checks_run : ℕ
  pub checks_passed : ℕ
  pub checks_warned : ℕ
  pub checks_failed : ℕ
  pub details : List ValidationCheck
  pub warnings : List Text

-- An `AgentResponse` by its subclass.
pub data AgentResponse : Type 0 where
  retrieval : RetrievalResult → AgentResponse
  synthesis : SynthesisResult → AgentResponse
  validation : ValidationResult → AgentResponse

pub record OrchestratorResponse : Type 0 where
  pub success : Bool
  pub query : Text
  pub intent : String
  pub results : List AgentResponse
  pub errors : List Text
  pub metadata : List (String × Json)

-- One step of the loop in `OrchestratorResponse.all_data`.
abbrev pub data_of : AgentResponse → List Fields
data_of (retrieval r) = r.items
data_of (synthesis r) = r.documents
data_of (validation r) = []

abbrev pub flatten_data : List AgentResponse → List Fields
flatten_data [] = []
flatten_data (r ∷ rs) = data_of r ++ flatten_data rs

-- `OrchestratorResponse.all_data`
unfoldable pub all_data : OrchestratorResponse → List Fields
all_data r = flatten_data r.results
