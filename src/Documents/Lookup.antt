-- ===== src/Documents/Lookup.antt =====
-- Storing and getting documents.
use zion_terminal.Base.{
  Bool, true, not, ◌&&◌, keep, List, String, some, [], ◌∷◌, ◌≡◌, refl, sym, ◌∙◌, str_eq, str_eq_iff,
  arith, if◌then◌else◌, Bool-cases, inl, inr,
}
use zion_terminal.Documents.Store.{
  CleanedDocument, DocumentStore, store, get_doc, is_listed, list_docs,
}

-- After a document is stored its id gives that document, and every other id what it gave before.
pub get_doc-store :
    (doc : CleanedDocument) (k : String) (ds : DocumentStore)
    → get_doc k (store doc ds) ≡ (if str_eq doc.doc_id k then some doc else get_doc k ds)
unfolding get_doc store
get_doc-store doc k [] = refl
get_doc-store doc k (d ∷ ds) = ground (
  arith,
  get_doc-store doc k ds,
  str_eq_iff d.doc_id doc.doc_id,
  str_eq_iff doc.doc_id k,
  str_eq_iff d.doc_id k,
)

-- The documents of a listing with other ids.
abbrev pub others : String → List CleanedDocument → List CleanedDocument
others k = keep (λ doc. not (str_eq doc.doc_id k))

-- A document with the id counts for nothing among the others, and each other one for itself.
others-step :
    (k : String) (p : CleanedDocument → Bool) (d : CleanedDocument) (ds : DocumentStore)
    → others k (keep p (d ∷ ds))
      ≡ (if p d && not (str_eq d.doc_id k) then d ∷ others k (keep p ds) else others k (keep p ds))
others-step k p d ds = elim (Bool-cases (p d)) [ inl e ↦ rw e refl | inr e ↦ rw e refl ]

others-same :
    (k : String) (p : CleanedDocument → Bool) (d : CleanedDocument) (ds : DocumentStore)
    → str_eq d.doc_id k ≡ true
    → others k (keep p (d ∷ ds)) ≡ others k (keep p ds)
others-same k p d ds e =
    others-step k p d ds ∙ elim (Bool-cases (p d)) [ inl h ↦ rw (h, e) refl | inr h ↦ rw h refl ]

others-store :
    (doc : CleanedDocument) (p : CleanedDocument → Bool) (ds : DocumentStore)
    → others doc.doc_id (keep p (store doc ds)) ≡ others doc.doc_id (keep p ds)
unfolding store
others-store doc p [] = others-same doc.doc_id p doc [] ((str_eq_iff doc.doc_id doc.doc_id).1 refl)
others-store doc p (d ∷ ds) = elim (Bool-cases (str_eq d.doc_id doc.doc_id)) [
  | inl e ↦ rw e (
      others-same doc.doc_id p doc ds ((str_eq_iff doc.doc_id doc.doc_id).1 refl)
      ∙ sym (others-same doc.doc_id p d ds e))
  | inr e ↦ rw e (
      others-step doc.doc_id p d (store doc ds)
      ∙ rw (others-store doc p ds) refl
      ∙ sym (others-step doc.doc_id p d ds))
]

-- Storing a document leaves the other documents of a listing as they are: without the documents of
-- the stored id, a listing after the store is the same list as before it.
pub list_docs-store :
    (doc : CleanedDocument) (ticker form : String) (ds : DocumentStore)
    → others doc.doc_id (list_docs ticker form (store doc ds))
      ≡ others doc.doc_id (list_docs ticker form ds)
unfolding list_docs
list_docs-store doc ticker form ds = others-store doc (is_listed ticker form) ds
