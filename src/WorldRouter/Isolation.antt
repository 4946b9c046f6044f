-- ===== src/WorldRouter/Isolation.antt =====
-- What a routed response says: it comes from the handler of the requested world, and it is about
-- that world.
use zion_terminal.Base.{
  Bool, true, false, not, Option, none, some, ◌∷◌, String, str_eq, ◌≡◌, ◌⊎◌, ◌↔◌, refl, sym, ◌∙◌,
  ap, arith, every, Bool-cases, str_eq_iff, if_cases, inl, inr, if◌then◌else◌,
}
use mathlib.Core.Path.{subst}
use zion_terminal.Base.Result.{
  ok, ok_injective, Ensures, Ensures-ok, Ensures-err, Ensures-if, Ensures-bind,
}
use zion_terminal.Base.Json.{Json, Fields, str, obj, get, contains, is_str}
use zion_terminal.WorldRouter.Handlers.{
  Handler, Registry, handler_for, is_world_type, register, requested_type, requested_world,
  check_query, required_response_fields, response_fields, response_world, registered, check_world,
  query,
}

-- The handler answers for its type, and every other type has the handler that it had.
abbrev pub Answers : String → Handler → Registry → Registry → Type 0
Answers t h r next =
    (u : String) → handler_for u next ≡ (if str_eq t u then some h else handler_for u r)

is_world_type_iff : (t : String) → (is_world_type t ≡ true) ↔ ((t ≡ "real") ⊎ (t ≡ "synthetic"))
is_world_type_iff t = (
  λ h. elim (Bool-cases (str_eq t "real")) [
    | inl e ↦ inl ((str_eq_iff t "real").0 e)
    | inr e ↦ inr ((str_eq_iff t "synthetic").0 (ground arith))
  ],
  λ k. elim k [ inl e ↦ rw e refl | inr e ↦ rw e refl ],
)

register_known :
    (t : String) (h : Handler) (r : Registry) {next : Registry}
    → register t h r ≡ ok next
    → (is_world_type t ≡ true) × (handler_for t r ≡ none)
unfolding register
register_known t h r e = ground arith

register_free :
    (t : String) (h : Handler) (r : Registry)
    → is_world_type t ≡ true
    → handler_for t r ≡ none
    → register t h r ≡ ok ((t, h) ∷ r)
unfolding register
register_free t h r k e = rw (k, e) refl

-- A registration succeeds exactly for the types "real" and "synthetic" that have no handler yet; then
-- the handler answers for its type, and every other type has the handler that it had.
pub register_lem :
    (t : String) (h : Handler) (r : Registry)
    → ((next : Registry) × (register t h r ≡ ok next) × Answers t h r next)
      ↔ (((t ≡ "real") ⊎ (t ≡ "synthetic")) × (handler_for t r ≡ none))
unfolding handler_for
register_lem t h r = (
  λ (next, e, a). let (k, free) = register_known t h r e in ((is_world_type_iff t).0 k, free),
  λ (k, free). ((t, h) ∷ r, register_free t h r ((is_world_type_iff t).1 k) free, λ u. refl),
)

requested_world_lem : (j : Json) {w : Fields} → requested_world j ≡ ok w → j ≡ obj w
unfolding requested_world
requested_world_lem (obj w) h = ap obj (ok_injective h)
requested_world_lem _ h = cc

requested_type_lem :
    (j : Json) {t : String} → requested_type j ≡ ok t → (j ≡ str t) × (is_world_type t ≡ true)
unfolding requested_type
requested_type_lem (str s) h = ground arith
requested_type_lem _ h = cc

response_fields_lem :
    (j : Json) {r : Fields}
    → response_fields j ≡ ok r
    → (j ≡ obj r) × (every (λ k. contains k r) required_response_fields ≡ true)
unfolding response_fields
response_fields_lem (obj r) {r = d'} h =
    elim (if_cases (every (λ k. contains k r) required_response_fields) (ok r) _ h) [
      | inl (complete, same) ↦
          let e = ok_injective same in
          (
            ap obj e,
            subst (λ d. every (λ k. contains k d) required_response_fields ≡ true) e complete,
          )
      | inr (partial, failed) ↦ cc
    ]
response_fields_lem _ h = cc

response_world_lem : (j : Json) {w : Fields} → response_world j ≡ ok w → j ≡ obj w
unfolding response_world
response_world_lem (obj w) h = ap obj (ok_injective h)
response_world_lem _ h = cc

registered_lem : (o : Option Handler) {h : Handler} → registered o ≡ ok h → o ≡ some h
unfolding registered
registered_lem none h = cc
registered_lem (some k) h = ap some (ok_injective h)

check_query_lem : (j : Json) → check_query j ≡ ok tt → (q : String) × (j ≡ str q)
unfolding check_query
check_query_lem (str q) h = (q, refl)
check_query_lem _ h = cc

-- A response comes from the handler that is registered for the world type of the request.
pub record IsAnswer (same : Json → Json → Bool) (registry : Registry) (request : Fields)
    (response : Json) : Type 0 where
  pub world : Fields
  pub world_type : String
  pub handler : Handler
  pub fields : Fields
  pub answered : Fields
  pub asked : get "world" request ≡ obj world
  pub typed : get "world_type" world ≡ str world_type
  pub known : is_world_type world_type ≡ true
  pub found : handler_for world_type registry ≡ some handler
  pub handled : handler request ≡ ok response
  pub is_dict : response ≡ obj fields
  pub complete : every (λ k. contains k fields) required_response_fields ≡ true
  pub has_world : get "world" fields ≡ obj answered
  pub same_type : is_str (get "world_type" answered) world_type ≡ true
  pub same_id : same (get "world_id" answered) (get "world_id" world) ≡ true

not-false : (b : Bool) → not b ≡ false → b ≡ true
not-false b h = ground arith

check_world_lem :
    (same : Json → Json → Bool) (t : String) (world response answered : Fields)
    → Ensures
        (λ r.
          (r ≡ obj response)
          × (is_str (get "world_type" answered) t ≡ true)
          × (same (get "world_id" answered) (get "world_id" world) ≡ true))
        (check_world same t world response answered)
unfolding check_world
check_world_lem same t world response answered =
    Ensures-if _ _ _ (λ h. Ensures-err _)
      (λ h.
        Ensures-if _ _ _ (λ k. Ensures-err _)
          (λ k. Ensures-ok _ (refl, not-false _ h, not-false _ k)))

module _ (same : Json → Json → Bool) (registry : Registry) (request : Fields) where
  query-Ensures : Ensures (IsAnswer same registry request) (query same registry request)
  unfolding query
  query-Ensures = Ensures-bind (requested_world (get "world" request)) _ (λ world hw.
      Ensures-bind (requested_type (get "world_type" world)) _ (λ t ht.
        Ensures-bind (check_query (get "query" request)) _ (λ q hq.
          Ensures-bind (registered (handler_for t registry)) _ (λ handler hh.
            Ensures-bind (handler request) _ (λ response hr.
              Ensures-bind (response_fields response) _ (λ fields hf.
                Ensures-bind (response_world (get "world" fields)) _ (λ answered ha. record {
                  returned = λ r e.
                      let (is_obj, kind, id) =
                        (check_world_lem same t world fields answered).returned r e in
                      let (from_obj, all_fields) = response_fields_lem response hf in
                      let (is_text, known) = requested_type_lem (get "world_type" world) ht in
                      record {
                        world = world;
                        world_type = t;
                        handler = handler;
                        fields = fields;
                        answered = answered;
                        asked = requested_world_lem (get "world" request) hw;
                        typed = is_text;
                        known = known;
                        found = registered_lem (handler_for t registry) hh;
                        handled = hr ∙ ap (λ j. ok j) (from_obj ∙ sym is_obj);
                        is_dict = is_obj;
                        complete = all_fields;
                        has_world = response_world_lem (get "world" fields) ha;
                        same_type = kind;
                        same_id = id;
                      };
                })))))))

-- A response that the registry returns is the answer of the handler that is registered for the
-- world type of the request; it has every required field, and its own world has the type and the
-- id of the requested world. So no request for one world is answered from another.
pub query-IsAnswer :
    (same : Json → Json → Bool) (registry : Registry) (request : Fields) {response : Json}
    → query same registry request ≡ ok response
    → IsAnswer same registry request response
query-IsAnswer same registry request {response} h =
    (query-Ensures same registry request).returned response h
