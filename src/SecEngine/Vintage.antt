-- ===== src/SecEngine/Vintage.antt =====
-- sec_engine.py: the figure of a context is its latest version at the cutoff, and no older one takes its place.
use zion_terminal.Base.{
  ℕ, Bool, true, false, Option, none, some, List, [], ◌∷◌, String, str_eq, str_eq_iff, ◌≡◌, refl,
  sym, ap, ◌∙◌, All, All_map, All-keep, All-keep_of, keep, every, map, is_empty, ◌⊎◌, inl, inr,
  if_cases, arith, if◌then◌else◌,
}
use zion_terminal.Base.Texts.{str_leb}
use zion_terminal.SecEngine.Decimals.{Decimal, same_text, same_optional}
use zion_terminal.SecEngine.Derivation.{Figure, latest_text}
use zion_terminal.SecEngine.Sources.{Sources, Row, Rejected, is_available}
use zion_terminal.SecEngine.Selection.{
  Context, Selected, chosen_figure, withheld_gap, same_context, context_of, in_context, is_version,
  gap_at, blocks, least_row, figure_of, agree, select_latest, select_group, select_all, select_rows,
  figures,
}
use zion_terminal.SecEngine.Versions.{
  same_start-eq, least_row_keeps, latest_text-Bounds, is_empty-keep, All-keep_split,
}

same_text-eq : (a b : Decimal) → same_text a b ≡ true → a ≡ b
unfolding same_text
same_text-eq a b h = ground arith

same_optional-eq : (a b : Option Decimal) → same_optional a b ≡ true → a ≡ b
same_optional-eq none none h = refl
same_optional-eq none (some b) h = cc
same_optional-eq (some a) none h = cc
same_optional-eq (some a) (some b) h = ap some (same_text-eq a b h)

every-All {ℓ} :
    {A : Type ℓ} (p : A → Bool) (xs : List A) → every p xs ≡ true → All (λ x. p x ≡ true) xs
every-All p [] h = tt
every-All p (x ∷ xs) h = (first, every-All p xs rest)
  where
    first : p x ≡ true
    first = ground arith

    rest : every p xs ≡ true
    rest = ground arith

same_context-eq : (a b : Context) → same_context a b ≡ true → a ≡ b
unfolding same_context
same_context-eq a b h = ground (
  arith,
  str_eq_iff a.metric b.metric,
  str_eq_iff a.concept b.concept,
  same_start-eq a.period_start b.period_start,
)

-- The context that a figure states.
abbrev pub figure_context : Figure → Context
figure_context f = record {
  metric = f.metric;
  concept = f.concept;
  period_start = f.period_start;
  period_end = f.period_end;
}

-- A figure with the instant, the value and the context of a row.
abbrev States : Row → Figure → Type 0
States r f =
    (f.available_at ≡ r.available_at)
    × (f.value_decimal ≡ r.value_decimal)
    × (figure_context f ≡ context_of r)

chosen_injective : {a b : Figure} → chosen_figure a ≡ chosen_figure b → b ≡ a
chosen_injective h = cc

figure_of-States :
    (r : Row) (versions : List Row) {f : Figure} → f ≡ figure_of r versions → States r f
unfolding figure_of
figure_of-States r versions h =
    (ap (λ x. x.available_at) h, ap (λ x. x.value_decimal) h, ap figure_context h)

-- The figure is that of one row of the context, at the instant of the versions, and has their value.
agree_lem :
    (c : Context) (rows : List Row) (latest : String) {f : Figure}
    → All (λ (r : Row). is_version latest r ≡ true) rows
    → All (λ (r : Row). in_context c r ≡ true) rows
    → agree c rows ≡ chosen_figure f
    → (f.available_at ≡ latest)
      × (figure_context f ≡ c)
      × All (λ (r : Row). r.value_decimal ≡ f.value_decimal) rows
unfolding agree
agree_lem c [] latest v u h = cc
agree_lem c (row ∷ rows) latest {f = f} v u h =
    outcome
      (if_cases (every (λ (r : Row). same_optional r.value_decimal row.value_decimal) rows) _ _ h)
  where
    chosen : Row
    chosen = least_row row rows

    agreed :
        every (λ (r : Row). same_optional r.value_decimal row.value_decimal) rows ≡ true
        → chosen_figure (figure_of chosen (row ∷ rows)) ≡ chosen_figure f
        → (f.available_at ≡ latest)
          × (figure_context f ≡ c)
          × All (λ (r : Row). r.value_decimal ≡ f.value_decimal) (row ∷ rows)
    agreed e k =
        let same =
          All_map (λ (r : Row). same_optional r.value_decimal row.value_decimal ≡ true)
            (λ (r : Row). r.value_decimal ≡ row.value_decimal) rows
            (λ r. same_optional-eq r.value_decimal row.value_decimal) (every-All _ rows e) in
        let (time, value, context) = figure_of-States chosen (row ∷ rows) (chosen_injective k) in
        let own =
          value ∙ least_row_keeps (λ r. r.value_decimal ≡ row.value_decimal) row rows refl same in
        (
          time
              ∙ (str_eq_iff _ _).0
                  (least_row_keeps (λ r. is_version latest r ≡ true) row rows v.0 v.1),
          context
              ∙ same_context-eq _ c (least_row_keeps (λ r. in_context c r ≡ true) row rows u.0 u.1),
          (
            sym own,
            All_map (λ (r : Row). r.value_decimal ≡ row.value_decimal)
                (λ (r : Row). r.value_decimal ≡ f.value_decimal) rows (λ r q. q ∙ sym own) same,
          ),
        )

    outcome :
        ((every (λ (r : Row). same_optional r.value_decimal row.value_decimal) rows ≡ true)
            × (chosen_figure (figure_of chosen (row ∷ rows)) ≡ chosen_figure f))
          ⊎ ((every (λ (r : Row). same_optional r.value_decimal row.value_decimal) rows ≡ false)
              × (withheld_gap (gap_at c "CONFLICTING_SOURCE_VALUES") ≡ chosen_figure f))
        → (f.available_at ≡ latest)
          × (figure_context f ≡ c)
          × All (λ (r : Row). r.value_decimal ≡ f.value_decimal) (row ∷ rows)
    outcome (inl (e, k)) = agreed e k
    outcome (inr (e, k)) = cc

module _ (src : Sources) (cutoff : String) where
  -- Among the rows, the figure is the latest: no row is later, every row of its instant has its value, and no
  -- context that is as recent was rejected.
  pub record IsLatest (rows : List Row) (f : Figure) : Type 0 where
    pub bounded : All (λ (r : Row). str_leb r.available_at f.available_at ≡ true) rows
    pub agreed :
        All
          (λ (r : Row).
            (str_eq r.available_at f.available_at ≡ false) ⊎ (r.value_decimal ≡ f.value_decimal))
          rows
    pub unblocked :
        All
          (λ (b : Rejected). blocks (figure_context f) f.available_at cutoff b ≡ false)
          src.rejected_contexts

  -- The facts at the instant and the context that the selection worked with.
  of_versions :
      (c : Context) (latest : String) (rows : List Row) {f : Figure}
      → f.available_at ≡ latest
      → figure_context f ≡ c
      → All (λ (r : Row). str_leb r.available_at latest ≡ true) rows
      → All (λ (r : Row). (is_version latest r ≡ false) ⊎ (r.value_decimal ≡ f.value_decimal)) rows
      → All (λ (b : Rejected). blocks c latest cutoff b ≡ false) src.rejected_contexts
      → IsLatest rows f
  of_versions c latest rows t u h v b = record {
    bounded = rw t h;
    agreed = rw t v;
    unblocked = rw (t, u) b;
  }

  abbrev Outcome : Context → List Row → Selected → Type 0
  Outcome c rows (withheld_gap g) = Unit
  Outcome c rows (chosen_figure f) = (figure_context f ≡ c) × IsLatest rows f

  select_latest-Outcome :
      (c : Context) (rows : List Row) (latest : String)
      → All (λ (r : Row). in_context c r ≡ true) rows
      → All (λ (r : Row). str_leb r.available_at latest ≡ true) rows
      → Outcome c rows (select_latest src cutoff c rows latest)
  unfolding select_latest
  select_latest-Outcome c rows latest u h =
      branch (is_empty (keep (blocks c latest cutoff) src.rejected_contexts)) refl
    where
      versions : List Row
      versions = keep (is_version latest) rows

      state :
          (s : Selected)
          → agree c versions ≡ s
          → is_empty (keep (blocks c latest cutoff) src.rejected_contexts) ≡ true
          → Outcome c rows s
      state (withheld_gap g) e k = tt
      state (chosen_figure f) e k =
          let (time, context, value) =
            agree_lem c versions latest
              (All-keep (λ r. is_version latest r ≡ true) (is_version latest) rows (λ r q. q))
              (All-keep_of (λ r. in_context c r ≡ true) (is_version latest) rows u) e in
          (
            context,
            of_versions c latest rows time context h
                (All-keep_split (λ r. r.value_decimal ≡ f.value_decimal) (is_version latest) rows
                  value)
                (is_empty-keep (blocks c latest cutoff) src.rejected_contexts k),
          )

      branch :
          (b : Bool)
          → is_empty (keep (blocks c latest cutoff) src.rejected_contexts) ≡ b
          → Outcome c rows (
              if b
              then agree c versions
              else withheld_gap (gap_at c "LATEST_SOURCE_CONTEXT_INVALID_NO_OLDER_FALLBACK"))
      branch true e = state (agree c versions) refl e
      branch false e = tt

  All_of_map :
      (P : String → Type 0) (rows : List Row)
      → All P (map (λ (r : Row). r.available_at) rows)
      → All (λ r. P r.available_at) rows
  All_of_map P [] h = tt
  All_of_map P (r ∷ rows) h = (h.0, All_of_map P rows h.1)

  select_group-Outcome :
      (c : Context) (rows : List Row)
      → All (λ (r : Row). in_context c r ≡ true) rows
      → Outcome c rows (select_group src cutoff c rows)
  unfolding select_group
  select_group-Outcome c [] u = tt
  select_group-Outcome c (row ∷ rows) u =
      let latest = latest_text row.available_at (map (λ (r : Row). r.available_at) rows) in
      let (first, rest) =
        latest_text-Bounds row.available_at (map (λ (r : Row). r.available_at) rows) in
      select_latest-Outcome c (row ∷ rows) latest u
        (first, All_of_map (λ t. str_leb t latest ≡ true) rows rest)

  -- The rows of the figure's own context.
  abbrev pub own_rows : List Row → Figure → List Row
  own_rows rows f = keep (in_context (figure_context f)) rows

  select_all-IsLatest :
      (rows : List Row) (cs : List Context)
      → All (λ (f : Figure). IsLatest (own_rows rows f) f) (figures (select_all src cutoff rows cs))
  unfolding select_all figures
  select_all-IsLatest rows [] = tt
  select_all-IsLatest rows (c ∷ cs) =
      add (select_group src cutoff c (keep (in_context c) rows))
        (select_group-Outcome c (keep (in_context c) rows)
          (All-keep (λ r. in_context c r ≡ true) (in_context c) rows (λ r q. q)))
        (select_all-IsLatest rows cs)
    where
      add :
          (s : Selected)
          → Outcome c (keep (in_context c) rows) s
          → All
              (λ (f : Figure). IsLatest (own_rows rows f) f)
              (figures (select_all src cutoff rows cs))
          → All
              (λ (f : Figure). IsLatest (own_rows rows f) f)
              (figures (s ∷ select_all src cutoff rows cs))
      add (withheld_gap g) o rest = rest
      add (chosen_figure f) o rest = (rw o.0 o.1, rest)

-- Every selected figure is the latest of its context at the cutoff: among the observations of the context
-- that were available at the cutoff and end by the last day asked for, none is later, those of its instant
-- all have its value, and no rejected context of its kind lies between its instant and the cutoff, so that
-- an older value never stands in for one that was withdrawn.
pub select_rows-IsLatest :
    (src : Sources) (cutoff : String) (date_to : ℕ)
    → All
        (λ (f : Figure).
          IsLatest src cutoff
            (own_rows src cutoff (keep (is_available cutoff date_to) src.observations) f)
            f)
        (figures (select_rows src cutoff date_to))
unfolding select_rows
select_rows-IsLatest src cutoff date_to =
    select_all-IsLatest src cutoff (keep (is_available cutoff date_to) src.observations) _
