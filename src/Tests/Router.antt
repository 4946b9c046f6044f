-- ===== src/Tests/Router.antt =====
-- The theorems on routing between worlds at concrete inputs.
use zion_terminal.Base.{Bool, false, none, String, [], ◌∷◌, ◌≡◌, ◌⊎◌, ◌↔◌, refl}
use zion_terminal.Base.Result.{ok}
use zion_terminal.Base.Json.{Json, Fields, null, str, obj, field, end, is_str}
use zion_terminal.WorldRouter.{Handler, Registry, handler_for, register, query}
use zion_terminal.WorldRouter.Isolation.{IsAnswer, Answers, register_lem, query-IsAnswer}

abbrev world : Fields
world = field "world_type" (str "real") (field "world_id" (str "w1") end)

abbrev response : Json
response = obj (
    field "world" (obj world) (
      field "entity" null (
        field "answer" (str "revenue was $1.000B.") (
          field "metrics" null
            (field "calculations" null (field "evidence" null (field "quality" null end)))))))

abbrev handler : Handler
handler request = ok response

abbrev registry : Registry
registry = ("real", handler) ∷ []

abbrev pub same_text : Json → Json → Bool
same_text (str s) x = is_str x s
same_text _ _ = false

abbrev request : Fields
request = field "world" (obj world) (field "query" (str "AAPL revenue") end)

query-IsAnswer_example : IsAnswer same_text registry request response
unfolding query
query-IsAnswer_example = query-IsAnswer same_text registry request refl

register_lem_example :
    ((next : Registry) × (register "synthetic" handler registry ≡ ok next)
      × Answers "synthetic" handler registry next)
    ↔ (((◌≡◌ {A = String} "synthetic" "real") ⊎ (◌≡◌ {A = String} "synthetic" "synthetic"))
        × (handler_for "synthetic" registry ≡ none))
register_lem_example = register_lem "synthetic" handler registry
