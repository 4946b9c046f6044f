-- ===== src/WorldRouter/Handlers.antt =====
-- world_router.py: `WorldRegistry`. Handlers belong to other repositories, so a handler is a
-- function from requests to a response or an error of its own.
use Prim.Native.Char.{code}
use zion_terminal.Base.{
  ℕ, Bool, true, not, ◌&&◌, ◌||◌, Option, none, some, List, [], ◌∷◌, String, str_eq, leb, ◌==◌,
  every, is_some, if◌then◌else◌,
}
use zion_terminal.Base.Result.{Result, ok, err, ◌>>=◌}
use zion_terminal.Base.Json.{Json, Fields, str, arr, obj, get, contains, is_str}

-- `WorldRouteError` by its message, the built-in errors of a malformed dict, and a handler's error.
pub data RouteError : Type 0 where
  unsupported_world_type : RouteError
  already_registered : RouteError
  invalid_world_ref : RouteError
  query_required : RouteError
  no_handler : RouteError
  invalid_response : RouteError
  world_type_mismatch : RouteError
  world_id_mismatch : RouteError
  type_error : RouteError
  attribute_error : RouteError
  handler_error : String → RouteError

abbrev pub Routed : Type 0 → Type 0
Routed A = Result RouteError A

abbrev pub Handler : Type 0
Handler = Fields → Routed Json

-- `self._handlers`
abbrev pub Registry : Type 0
Registry = List (String × Handler)

unfoldable pub handler_for : String → Registry → Option Handler
handler_for t [] = none
handler_for t ((u, h) ∷ r) = let rest = handler_for t r in if str_eq u t then some h else rest

-- `t in {"real", "synthetic"}`
abbrev pub is_world_type : String → Bool
is_world_type t = str_eq t "real" || str_eq t "synthetic"

-- `register`
unfoldable pub register : String → Handler → Registry → Routed Registry
unfolding handler_for
register t h r =
    if not (is_world_type t)
    then err unsupported_world_type
    else if is_some (handler_for t r)
    then err already_registered
    else ok ((t, h) ∷ r)

-- The characters that `str.strip` removes.
unfoldable pub is_space : ℕ → Bool
is_space c =
    (leb 9 c && leb c 13)
    || ((leb 28 c && leb c 32)
        || (c == 0x85
            || (c == 0xa0
                || (c == 0x1680
                    || ((leb 0x2000 c && leb c 0x200a)
                        || (c == 0x2028
                            || (c == 0x2029 || (c == 0x202f || (c == 0x205f || c == 0x3000)))))))))

-- `not s.strip()`
unfoldable pub is_blank : String → Bool
unfolding is_space
is_blank String.[] = true
is_blank (String.◌∷◌ c s) = is_space (code c) && is_blank s

-- The type of the requested world; a value that is not hashable cannot be looked up in a set.
unfoldable pub requested_type : Json → Routed String
requested_type (str t) = if is_world_type t then ok t else err invalid_world_ref
requested_type (arr _) = err type_error
requested_type (obj _) = err type_error
requested_type _ = err invalid_world_ref

unfoldable pub requested_world : Json → Routed Fields
requested_world (obj w) = ok w
requested_world _ = err invalid_world_ref

unfoldable pub check_query : Json → Routed (Unit {0})
unfolding is_blank
check_query (str q) = if is_blank q then err query_required else ok tt
check_query _ = err query_required

abbrev pub required_response_fields : List String
required_response_fields =
    "world" ∷ "entity" ∷ "answer" ∷ "metrics" ∷ "calculations" ∷ "evidence" ∷ "quality" ∷ []

-- The dict of a valid response.
unfoldable pub response_fields : Json → Routed Fields
response_fields (obj r) =
    if every (λ k. contains k r) required_response_fields then ok r else err invalid_response
response_fields _ = err invalid_response

unfoldable pub response_world : Json → Routed Fields
response_world (obj w) = ok w
response_world _ = err attribute_error

unfoldable pub registered : Option Handler → Routed Handler
registered none = err no_handler
registered (some h) = ok h

module _ (same : Json → Json → Bool) where
  -- The checks on the world of a response; `same` is Python's `==` on JSON values.
  unfoldable pub check_world : String → Fields → Fields → Fields → Routed Json
  check_world t world response answered =
      if not (is_str (get "world_type" answered) t)
      then err world_type_mismatch
      else if not (same (get "world_id" answered) (get "world_id" world))
      then err world_id_mismatch
      else ok (obj response)

  -- `query`
  unfoldable pub query : Registry → Fields → Routed Json
  unfolding requested_world requested_type check_query registered handler_for response_fields
      response_world check_world
  query registry request = do
    world ← requested_world (get "world" request)
    t ← requested_type (get "world_type" world)
    _ ← check_query (get "query" request)
    handler ← registered (handler_for t registry)
    response ← handler request
    fields ← response_fields response
    answered ← response_world (get "world" fields)
    check_world t world fields answered
