-- ===== src/HistoryStore/Held.antt =====
-- history_store.py: what a task needs on disk to be served from its checkpoint, and that the
-- writes of other tasks leave it there.
use zion_terminal.Base.{
  Bool, true, false, Option, none, some, String, str_eq, ◌≡◌, refl, sym, ◌∙◌, inl, inr,
  if◌then◌else◌, str_eq_iff, Bool-cases, Option-cases,
}
use zion_terminal.Base.Dict.{lookup, lookup-put}
use zion_terminal.Base.Result.{Result, ok, >>=-eq-ok, ok_injective}
use zion_terminal.HistoryStore.Files.{
  Task, SourceRecord, Library, Files, checkpoint_name, is_pin, write_raw, write_checkpoint, atomic,
}
use zion_terminal.HistoryStore.Acquire.{reuse, read_checkpoint, candidate, pinned, verified}

module _ (L : Library) where
  -- The checkpoint of the task, and the bytes that it pins.
  pub record Held (d : Files L) (t : Task) (raw : L.Bytes) (r : SourceRecord) : Type 0 where
    pub body : L.Bytes
    pub named : lookup (checkpoint_name L t) d.checkpoints ≡ some body
    pub loaded : L.loads body ≡ ok (some r)
    pub pin : is_pin r.source_sha256 ≡ true
    pub kept : lookup r.source_sha256 d.raws ≡ some raw
    pub checked : verified L t r raw ≡ true

  pub Held→reuse :
      (d : Files L) (t : Task) (raw : L.Bytes) (r : SourceRecord)
      → Held d t raw r
      → reuse L false d t ≡ ok (some (raw, r))
  unfolding reuse read_checkpoint candidate pinned
  Held→reuse d t raw r h = rw (h.named, h.loaded, h.pin, h.kept, h.checked) refl

  if_some :
      {A : Type 0} (b : Bool) (m : Option A) {x : A}
      → (if b then m else none) ≡ some x
      → (b ≡ true) × (m ≡ some x)
  if_some true m h = (refl, h)
  if_some false m h = cc

  pair-eq :
      {A B : Type 0} {a c : A} {b d : B}
      → ◌≡◌ {A = Option (A × B)} (some (a, b)) (some (c, d))
      → (a ≡ c) × (b ≡ d)
  pair-eq h = (cc, cc)

  pinned-eq-some :
      (d : Files L) (t : Task) (s : SourceRecord) (found : Option L.Bytes) (raw : L.Bytes)
      (r : SourceRecord)
      → pinned L d t s found ≡ some (raw, r)
      → (found ≡ some raw) × (s ≡ r) × (verified L t s raw ≡ true)
  unfolding pinned
  pinned-eq-some d t s none raw r h = cc
  pinned-eq-some d t s (some x) raw r h =
      let (checked, k) = if_some (verified L t s x) (some (x, s)) h in
      let (p, q) = pair-eq k in (rw p refl, q, rw p at checked)

  candidate-eq-some :
      (d : Files L) (t : Task) (found : Option SourceRecord) (raw : L.Bytes) (r : SourceRecord)
      → candidate L d t found ≡ some (raw, r)
      → (found ≡ some r)
        × (is_pin r.source_sha256 ≡ true)
        × (lookup r.source_sha256 d.raws ≡ some raw)
        × (verified L t r raw ≡ true)
  unfolding candidate
  candidate-eq-some d t none raw r h = cc
  candidate-eq-some d t (some s) raw r h =
      let (pin, k) =
        if_some (is_pin s.source_sha256) (pinned L d t s (lookup s.source_sha256 d.raws)) h in
      let (kept, is, checked) = pinned-eq-some d t s (lookup s.source_sha256 d.raws) raw r k in
      rw (sym is) (refl, pin, kept, checked)

  pub reuse→Held :
      (d : Files L) (t : Task) (raw : L.Bytes) (r : SourceRecord)
      → reuse L false d t ≡ ok (some (raw, r))
      → Held d t raw r
  unfolding reuse read_checkpoint
  reuse→Held d t raw r h = elim (Option-cases (lookup (checkpoint_name L t) d.checkpoints)) [
    | inl e ↦ refused (rw e at h)
    | inr (body, e) ↦
        let (found, l, k) = >>=-eq-ok (L.loads body) _ (rw e at h) in
        let (is, pin, kept, checked) = candidate-eq-some d t found raw r (ok_injective k) in
        record {
          body = body;
          named = e;
          loaded = l ∙ rw is refl;
          pin = pin;
          kept = kept;
          checked = checked;
        }
  ]
    where
      refused :
          {A : Type 0}
          → ◌≡◌ {A = Result String (Option (L.Bytes × SourceRecord))} (ok none) (ok (some (raw, r)))
          → A
      refused k = cc

  -- Writes of other names, and of bytes that no other bytes share a digest with, leave a task held.
  pub Held-write_checkpoint :
      (d : Files L) (t : Task) (raw : L.Bytes) (r : SourceRecord) (name : String) (body : L.Bytes)
      → str_eq (checkpoint_name L t) name ≡ false
      → Held d t raw r
      → Held (atomic L (write_checkpoint name body) d) t raw r
  unfolding atomic
  Held-write_checkpoint d t raw r name body other h = record {
    body = h.body;
    named = lookup-put (checkpoint_name L t) name body d.checkpoints ∙ rw other h.named;
    loaded = h.loaded;
    pin = h.pin;
    kept = h.kept;
    checked = h.checked;
  }

  pub Held-write_raw :
      (d : Files L) (t : Task) (raw : L.Bytes) (r : SourceRecord) (pin : String) (new : L.Bytes)
      → (r.source_sha256 ≡ pin → new ≡ raw)
      → Held d t raw r
      → Held (atomic L (write_raw pin new) d) t raw r
  unfolding atomic
  Held-write_raw d t raw r pin new same h = record {
    body = h.body;
    named = h.named;
    loaded = h.loaded;
    pin = h.pin;
    kept = elim (Bool-cases (str_eq r.source_sha256 pin)) [
      | inl e ↦
          lookup-put r.source_sha256 pin new d.raws
          ∙ rw (e, same ((str_eq_iff r.source_sha256 pin).0 e)) refl
      | inr e ↦ lookup-put r.source_sha256 pin new d.raws ∙ rw e h.kept
    ];
    checked = h.checked;
  }
