-- ===== src/Orchestrator/Filings.antt =====
-- orchestrator/orchestrator.py: `get_filing_markdown`, which keeps what it fetched in the document
-- store.
use Prim.Native.String.{◌++◌ as str_append, count}
use zion_terminal.Base.{
  ℕ, Bool, true, false, ◌&&◌, Option, none, some, List, [], ◌∷◌, String, str_eq, if◌then◌else◌,
}
use zion_terminal.Base.Result.{ok, ◌>>=◌}
use zion_terminal.Base.Upper.{upper, underscored}
use zion_terminal.Base.Json.{Json, Fields, str, obj, end, field, get, truthy}
use zion_terminal.Models.Responses.{filled, AgentResponse, retrieval, OrchestratorResponse}
use zion_terminal.Validation.{Checked}
use zion_terminal.Validation.Synthesis.{get_default}
use zion_terminal.Retrieval.{ticker_task}
use zion_terminal.Documents.{CleanedDocument, DocumentStore, store}
use zion_terminal.Orchestrator.Agent.{Orchestrator, fetch_and_validate, optional_number}

-- `f"{ticker}_{form}_{filing_date}".replace(" ", "_")`
unfoldable pub document_id : String → String → String → String
document_id ticker form filing_date =
    underscored (str_append ticker (str_append "_" (str_append form (str_append "_" filing_date))))

-- The pipeline metadata and the verification in it; a verification that is no dict is refused by
-- the document model.
abbrev pub metadata_of : Json → Fields
metadata_of (obj m) = m
metadata_of _ = end

abbrev pub verification_of : Fields → Option Fields
verification_of m = elim (get_default "verification" (obj end) m) [ obj v ↦ some v | _ ↦ none ]

-- What one round of the loop over the items does: skip an item without markdown, keep a document,
-- or raise, which ends the loop.
pub data Kept : Type 0 where
  skipped : Kept
  kept : CleanedDocument → Kept
  raised : Kept

module _ (show : Json → String) where
  abbrev pub filing_date_of : Fields → Json
  filing_date_of item = get_default "filing_date" (str "") item

  -- The text of a value in an f-string; `show` is Python's `str` on what is no text.
  abbrev pub formatted : Json → String
  formatted (str s) = s
  formatted x = show x

  unfoldable pub document_with : String → String → Fields → String → Option Fields → Kept
  unfolding document_id
  document_with ticker form item md none = raised
  document_with ticker form item md (some checked) =
      let date = filing_date_of item in
      kept (record {
        doc_id = document_id ticker form (formatted date);
        ticker = ticker;
        form = form;
        filing_date = if truthy date then formatted date else "";
        markdown = md;
        markdown_char_count = count md;
        verification = checked;
        metadata = metadata_of (get_default "pipeline_metadata" (obj end) item);
      })

  -- The document of one item; markdown that is no text is refused by the document model.
  unfoldable pub document_of : String → String → Fields → Json → Kept
  unfolding document_with
  document_of ticker form item (str md) =
      if str_eq md ""
      then skipped
      else document_with ticker form item md
          (verification_of (metadata_of (get_default "pipeline_metadata" (obj end) item)))
  document_of ticker form item md = if truthy md then raised else skipped

  -- The loop over the items of one result, and whether it went to its end.
  unfoldable pub persist_items :
      String → String → List Fields → DocumentStore → DocumentStore × Bool
  unfolding document_of
  persist_items ticker form [] docs = (docs, true)
  persist_items ticker form (item ∷ items) docs =
      elim (document_of ticker form item (get "content_markdown" item)) [
        | skipped ↦ persist_items ticker form items docs
        | kept doc ↦ persist_items ticker form items (store doc docs)
        | raised ↦ (docs, false)
      ]

  unfoldable pub persist_results :
      String → String → List AgentResponse → DocumentStore → DocumentStore
  unfolding persist_items
  persist_results ticker form [] docs = docs
  persist_results ticker form (retrieval r ∷ rs) docs =
      let (docs', went_on) = persist_items ticker form r.items docs in
      let rest = persist_results ticker form rs docs' in if went_on then rest else docs'
  persist_results ticker form (_ ∷ rs) docs = persist_results ticker form rs docs

  -- `get_filing_markdown`: the response and the document store after it
  unfoldable pub get_filing_markdown :
      Orchestrator
      → DocumentStore
      → String
      → String
      → Option ℕ
      → Bool
      → Bool
      → Checked (OrchestratorResponse × DocumentStore)
  unfolding persist_results fetch_and_validate
  get_filing_markdown o docs ticker form year validate persist = do
    response ←
        fetch_and_validate o
          (ticker_task "sec_edgar" (upper ticker) "filing_markdown"
              (field "form" (str form) (optional_number "year" year end))
            ∷ [])
          (filled "{ticker} {form} filing markdown" (str ticker ∷ str form ∷ [])) "filing_markdown"
          validate []
    ok (
      response,
      (if persist && response.success
          then persist_results (upper ticker) form response.results docs
          else docs),
    )
