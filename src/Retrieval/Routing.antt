-- ===== src/Retrieval/Routing.antt =====
-- Which adapter serves a task, and when a fallback is reported.
use zion_terminal.Base.{
  true, false, not, ◌&&◌, none, some, [], ◌∷◌, String, ◌≡◌, refl, ◌↔◌, str_eq, str_eq_iff, arith,
  is_some, if◌then◌else◌,
}
use zion_terminal.Base.Json.{get, contains, truthy}
use zion_terminal.Retrieval.Agent.{
  Adapter, Adapters, Task, register_adapter, adapter_named, action_of, is_filing_action,
  filing_adapter, find_adapter_for_task, select_adapter, source_of,
}

-- After a registration the new adapter answers to its name, and every other name has the adapter
-- that it had before.
pub adapter_named-register_adapter :
    (a : Adapter) (name : String) (bs : Adapters)
    → adapter_named name (register_adapter a bs)
      ≡ (if str_eq a.source_name name then some a else adapter_named name bs)
unfolding adapter_named register_adapter
adapter_named-register_adapter a name [] = refl
adapter_named-register_adapter a name (b ∷ bs) = ground (
  arith,
  adapter_named-register_adapter a name bs,
  str_eq_iff a.source_name b.source_name,
  str_eq_iff a.source_name name,
  str_eq_iff b.source_name name,
)

-- A task that comes unmarked, and whose own source is not registered, is marked as a fallback
-- exactly when it is a ticker task with a filing action, SEC EDGAR is not registered, and Yahoo is.
pub select_adapter-fallback :
    (adapters : Adapters) (task : Task)
    → truthy (get "_fallback_from" task) ≡ false
    → adapter_named (source_of (get "source" task)) adapters ≡ none
    → (truthy (get "_fallback_from" (select_adapter adapters task).1) ≡ true) ↔ (
        (contains "ticker" task && not (contains "series_id" task) ≡ true)
        × (is_filing_action (action_of task) ≡ true)
        × (adapter_named "sec_edgar" adapters ≡ none)
        × (is_some (adapter_named "yahoo_finance" adapters) ≡ true))
unfolding select_adapter find_adapter_for_task filing_adapter
select_adapter-fallback adapters task unmarked missing = (λ h. ground arith, λ h. ground arith)

-- A task is served by the adapter that it names, unmarked, whenever that one is registered.
pub select_adapter-named :
    (adapters : Adapters) (task : Task) {a : Adapter}
    → adapter_named (source_of (get "source" task)) adapters ≡ some a
    → select_adapter adapters task ≡ (some a, task)
unfolding select_adapter
select_adapter-named adapters task h = rw (h, select_adapter)
