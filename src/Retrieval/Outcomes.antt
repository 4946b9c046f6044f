-- ===== src/Retrieval/Outcomes.antt =====
-- `fetch` against a plain description: what each task contributes, put together in task order.
use zion_terminal.Base.{
  Bool, true, false, not, ◌||◌, Option, none, some, List, [], ◌∷◌, ◌++◌, String, ◌≡◌, refl, sym, ap,
  ◌∙◌, str_eq_iff, arith, is_empty, if◌then◌else◌,
}
use mathlib.Core.List.{append_assoc, append-nil}
use zion_terminal.Base.Json.{Fields, get, truthy}
use zion_terminal.Models.Responses.{Text}
use zion_terminal.Retrieval.Agent.{
  Adapter, Adapters, Task, Progress, start, select_adapter, fetch_selected, fetch_from, fetch,
  member, distinct, no_adapter_error, fallback_warnings,
}

-- The outcome of a task for the adapter that was selected.
abbrev pub items_of : Option Adapter × Task → List Fields
items_of (none, task) = []
items_of (some a, task) = (a.fetch_task task).items

abbrev pub sources_of : Option Adapter × Task → List String
sources_of (none, task) = []
sources_of (some a, task) = (a.fetch_task task).sources_used

abbrev pub errors_of : Option Adapter × Task → List Text
errors_of (none, task) = no_adapter_error task ∷ []
errors_of (some a, task) = (a.fetch_task task).errors

abbrev pub warnings_of : Option Adapter × Task → List Text
warnings_of (none, task) = []
warnings_of (some a, task) = fallback_warnings a task ++ (a.fetch_task task).warnings

abbrev pub cached_of : Option Adapter × Task → Bool
cached_of (none, task) = false
cached_of (some a, task) = (a.fetch_task task).cached

abbrev pub fallback_of : Option Adapter × Task → Bool
fallback_of (none, task) = false
fallback_of (some a, task) = truthy (get "_fallback_from" task)

-- What `f` gives for each task in turn.
abbrev pub each {ℓ} :
    {A : Type ℓ} → (Option Adapter × Task → List A) → Adapters → List Task → List A
each f adapters [] = []
each f adapters (task ∷ tasks) = f (select_adapter adapters task) ++ each f adapters tasks

abbrev pub some_task : (Option Adapter × Task → Bool) → Adapters → List Task → Bool
some_task f adapters [] = false
some_task f adapters (task ∷ tasks) = f (select_adapter adapters task) || some_task f adapters tasks

-- The fields after one task.
record Adds (p q : Progress) (s : Option Adapter × Task) : Type 0 where
  items : q.all_data ≡ p.all_data ++ items_of s
  sources : q.all_sources ≡ p.all_sources ++ sources_of s
  errors : q.all_errors ≡ p.all_errors ++ errors_of s
  warnings : q.all_warnings ≡ p.all_warnings ++ warnings_of s
  cached : q.any_cached ≡ (p.any_cached || cached_of s)
  fallback : q.fallback_used ≡ (p.fallback_used || fallback_of s)

set_or : (b c : Bool) → (if b then true else c) ≡ (c || b)
set_or b c = ground arith

or_none : (c : Bool) → c ≡ (c || false)
or_none c = ground arith

fetch_selected-Adds :
    (p : Progress) (a : Option Adapter) (task : Task) → Adds p (fetch_selected p a task) (a, task)
unfolding fetch_selected
fetch_selected-Adds p none task = record {
  items = sym (append-nil p.all_data);
  sources = sym (append-nil p.all_sources);
  errors = refl;
  warnings = sym (append-nil p.all_warnings);
  cached = or_none p.any_cached;
  fallback = or_none p.fallback_used;
}
fetch_selected-Adds p (some a) task = record {
  items = refl;
  sources = refl;
  errors = refl;
  warnings = append_assoc p.all_warnings (fallback_warnings a task) (a.fetch_task task).warnings;
  cached = set_or (a.fetch_task task).cached p.any_cached;
  fallback = set_or (truthy (get "_fallback_from" task)) p.fallback_used;
}

record Sums (adapters : Adapters) (p q : Progress) (tasks : List Task) : Type 0 where
  items : q.all_data ≡ p.all_data ++ each items_of adapters tasks
  sources : q.all_sources ≡ p.all_sources ++ each sources_of adapters tasks
  errors : q.all_errors ≡ p.all_errors ++ each errors_of adapters tasks
  warnings : q.all_warnings ≡ p.all_warnings ++ each warnings_of adapters tasks
  cached : q.any_cached ≡ (p.any_cached || some_task cached_of adapters tasks)
  fallback : q.fallback_used ≡ (p.fallback_used || some_task fallback_of adapters tasks)

chain {ℓ} :
    {A : Type ℓ} {q r : List A} (p x y : List A) → q ≡ p ++ x → r ≡ q ++ y → r ≡ p ++ (x ++ y)
chain p x y h k = k ∙ ap (λ l. l ++ y) h ∙ append_assoc p x y

or_chain : {q r : Bool} (p x y : Bool) → q ≡ (p || x) → r ≡ (q || y) → r ≡ (p || (x || y))
or_chain p x y h k = ground arith

fetch_from-Sums :
    (adapters : Adapters) (tasks : List Task) (p : Progress)
    → Sums adapters p (fetch_from adapters p tasks) tasks
unfolding fetch_from
fetch_from-Sums adapters [] p = record {
  items = sym (append-nil p.all_data);
  sources = sym (append-nil p.all_sources);
  errors = sym (append-nil p.all_errors);
  warnings = sym (append-nil p.all_warnings);
  cached = or_none p.any_cached;
  fallback = or_none p.fallback_used;
}
fetch_from-Sums adapters (task ∷ tasks) p =
    let s = select_adapter adapters task in
    let q = fetch_selected p s.0 s.1 in
    let one = fetch_selected-Adds p s.0 s.1 in
    let rest = fetch_from-Sums adapters tasks q in
    record {
      items = chain p.all_data (items_of s) (each items_of adapters tasks) one.items rest.items;
      sources =
          chain p.all_sources (sources_of s) (each sources_of adapters tasks) one.sources
            rest.sources;
      errors =
          chain p.all_errors (errors_of s) (each errors_of adapters tasks) one.errors rest.errors;
      warnings =
          chain p.all_warnings (warnings_of s) (each warnings_of adapters tasks) one.warnings
            rest.warnings;
      cached =
          or_chain p.any_cached (cached_of s) (some_task cached_of adapters tasks) one.cached
            rest.cached;
      fallback =
          or_chain p.fallback_used (fallback_of s) (some_task fallback_of adapters tasks)
            one.fallback rest.fallback;
    }

-- The fetched data, errors and warnings are those of the tasks, each served by the adapter that is
-- selected for it (or reported as having none), put together in the order of the tasks; the result
-- is cached, or a fallback, exactly when some task's outcome is; and it is a success exactly when
-- there is no error or some data.
pub fetch_lem :
    (adapters : Adapters) (tasks : List Task)
    → let r = fetch adapters tasks in
      (r.items ≡ each items_of adapters tasks)
      × (r.errors ≡ each errors_of adapters tasks)
      × (r.warnings ≡ each warnings_of adapters tasks)
      × (r.cached ≡ some_task cached_of adapters tasks)
      × (r.fallback_used ≡ some_task fallback_of adapters tasks)
      × (r.success ≡ (
          is_empty (each errors_of adapters tasks)
          || not (is_empty (each items_of adapters tasks))))
unfolding fetch
fetch_lem adapters tasks =
    let s = fetch_from-Sums adapters tasks start in
    (
      s.items,
      s.errors,
      s.warnings,
      s.cached,
      s.fallback,
      (λ i. is_empty (s.errors i) || not (is_empty (s.items i))),
    )

member-distinct : (s : String) (xs : List String) → member s (distinct xs) ≡ member s xs
unfolding member distinct
member-distinct s [] = refl
member-distinct s (t ∷ xs) =
    ground (arith, member-distinct s xs, str_eq_iff t s, member-distinct t xs)

-- The sources of a result are those of its tasks: a name is among them exactly when the outcome of
-- some task has it.
pub member-fetch :
    (adapters : Adapters) (tasks : List Task) (s : String)
    → member s (fetch adapters tasks).sources_used ≡ member s (each sources_of adapters tasks)
unfolding fetch
member-fetch adapters tasks s =
    member-distinct s (fetch_from adapters start tasks).all_sources
    ∙ ap (member s) (fetch_from-Sums adapters tasks start).sources
