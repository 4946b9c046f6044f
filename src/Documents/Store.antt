-- ===== src/Documents/Store.antt =====
-- cache/doc_store.py: the table of documents. SQLite's primary key makes it a map from ids; the
-- sections, which are JSON texts in the table, and the creation time are not modelled.
use zion_terminal.Base.{
  ℕ, Bool, ◌&&◌, ◌||◌, keep, String, Option, none, some, List, [], ◌∷◌, str_eq, if◌then◌else◌,
}
use zion_terminal.Base.Upper.{upper}
use zion_terminal.Base.Json.{Fields}

-- models/documents.py: `CleanedDocument`
pub record CleanedDocument : Type 0 where
  pub doc_id : String
  pub ticker : String
  pub form : String
  pub filing_date : String
  pub markdown : String
  pub markdown_char_count : ℕ
  pub verification : Fields
  pub metadata : Fields

abbrev pub DocumentStore : Type 0
DocumentStore = List CleanedDocument

-- `store`: INSERT OR REPLACE
unfoldable pub store : CleanedDocument → DocumentStore → DocumentStore
store doc [] = doc ∷ []
store doc (d ∷ ds) =
    let rest = store doc ds in if str_eq d.doc_id doc.doc_id then doc ∷ ds else d ∷ rest

-- `get`
unfoldable pub get_doc : String → DocumentStore → Option CleanedDocument
get_doc doc_id [] = none
get_doc doc_id (d ∷ ds) =
    let rest = get_doc doc_id ds in if str_eq d.doc_id doc_id then some d else rest

-- The filters of `list_docs`: an empty text is no filter.
unfoldable pub is_listed : String → String → CleanedDocument → Bool
unfolding upper
is_listed ticker form doc =
    (str_eq ticker "" || str_eq doc.ticker (upper ticker))
    && (str_eq form "" || str_eq doc.form form)

-- `list_docs`, without the order by creation time
unfoldable pub list_docs : String → String → DocumentStore → List CleanedDocument
unfolding is_listed
list_docs ticker form ds = keep (is_listed ticker form) ds
