-- ===== src/SecEngine/Known.antt =====
-- sec_engine.py: no figure of a history rests on what became available after its cutoff.
use zion_terminal.Base.{
  ℕ, true, not, Option, none, some, List, [], ◌∷◌, String, ◌≡◌, sym, All, All-keep, All-keep_of,
  keep, map, every, is_empty, arith, if◌then◌else◌, if_both,
}
use zion_terminal.Base.Result.{ok, >>=-eq-ok, ok_injective, otherwise}
use zion_terminal.Base.Texts.{str_leb}
use zion_terminal.SecEngine.Decimals.{Decimal, same_optional}
use zion_terminal.SecEngine.Derivation.{
  Figure, Operation, latest_text, same_units, numbers, value_of, derived_figure, calculate_figure,
}
use zion_terminal.SecEngine.Sources.{Sources, Row, is_available}
use zion_terminal.SecEngine.Selection.{
  Context, Selected, chosen_figure, withheld_gap, is_version, in_context, blocks, least_row,
  figure_of, agree, select_latest, select_group, select_all, select_rows, figures,
}
use zion_terminal.SecEngine.Periods.{Key, Slot, ambiguous, held, Table, same_key, slot_at, assign}
use zion_terminal.SecEngine.Versions.{least_row_keeps}

module _ (cutoff : String) where
  -- The text of an instant is at most the cutoff.
  abbrev pub Reached : String → Type 0
  Reached s = str_leb s cutoff ≡ true

  abbrev pub Known : Figure → Type 0
  Known f = Reached f.available_at

  pub latest_text-Reached :
      (s : String) (ts : List String) → Reached s → All Reached ts → Reached (latest_text s ts)
  unfolding latest_text
  latest_text-Reached s [] h hs = h
  latest_text-Reached s (t ∷ ts) h hs =
      latest_text-Reached (if str_leb t s then s else t) ts
        (if_both Reached (str_leb t s) s t h hs.0) hs.1

  available :
      (ps : List Figure) → All Known ps → All Reached (map (λ (q : Figure). q.available_at) ps)
  available [] h = tt
  available (p ∷ ps) h = (h.0, available ps h.1)

  pub calculate_figure-Known :
      (operation : Operation) (metric : String) (start : Option ℕ) (ending : ℕ) (p : Figure)
      (ps : List Figure) {f : Figure}
      → calculate_figure operation metric start ending p ps ≡ ok f
      → Known p
      → All Known ps
      → Known f
  unfolding calculate_figure
  calculate_figure-Known operation metric start ending p ps h k ks =
      let (u, h1) = otherwise (not (every (λ (q : Figure). same_units q p) ps)) _ _ h in
      let (vals, v, h2) = >>=-eq-ok (numbers (p ∷ ps)) _ h1 in
      let (value, w, h3) = >>=-eq-ok (value_of operation vals) _ h2 in
      rw (sym (ok_injective h3)) (shown value)
    where
      shown : (value : Decimal) → Known (derived_figure operation metric start ending p ps value)
      shown value =
          unfold derived_figure in latest_text-Reached p.available_at _ k (available ps ks)

  -- Rows of the source.
  abbrev pub KnownRow : Row → Type 0
  KnownRow r = Reached r.available_at

  abbrev pub KnownSelected : Selected → Type 0
  KnownSelected (chosen_figure f) = Known f
  KnownSelected (withheld_gap g) = Unit

  agree-KnownSelected :
      (c : Context) (rows : List Row) → All KnownRow rows → KnownSelected (agree c rows)
  unfolding agree figure_of
  agree-KnownSelected c [] h = tt
  agree-KnownSelected c (row ∷ rows) h =
      if_both KnownSelected
        (every (λ (r : Row). same_optional r.value_decimal row.value_decimal) rows)
        (chosen_figure (figure_of (least_row row rows) (row ∷ rows))) _
        (least_row_keeps KnownRow row rows h.0 h.1) tt

  select_latest-KnownSelected :
      (src : Sources) (limit : String) (c : Context) (rows : List Row) (latest : String)
      → All KnownRow rows
      → KnownSelected (select_latest src limit c rows latest)
  unfolding select_latest
  select_latest-KnownSelected src limit c rows latest h =
      if_both KnownSelected (is_empty (keep (blocks c latest limit) src.rejected_contexts))
        (agree c (keep (is_version latest) rows)) _
        (agree-KnownSelected c _ (All-keep_of KnownRow (is_version latest) rows h)) tt

  select_group-KnownSelected :
      (src : Sources) (limit : String) (c : Context) (rows : List Row)
      → All KnownRow rows
      → KnownSelected (select_group src limit c rows)
  unfolding select_group
  select_group-KnownSelected src limit c [] h = tt
  select_group-KnownSelected src limit c (row ∷ rows) h =
      select_latest-KnownSelected src limit c (row ∷ rows) _ h

  select_all-Known :
      (src : Sources) (limit : String) (rows : List Row) (cs : List Context)
      → All KnownRow rows
      → All KnownSelected (select_all src limit rows cs)
  unfolding select_all
  select_all-Known src limit rows [] h = tt
  select_all-Known src limit rows (c ∷ cs) h = (
    select_group-KnownSelected src limit c _ (All-keep_of KnownRow (in_context c) rows h),
    select_all-Known src limit rows cs h,
  )

  figures-Known : (xs : List Selected) → All KnownSelected xs → All Known (figures xs)
  unfolding figures
  figures-Known [] h = tt
  figures-Known (chosen_figure f ∷ xs) h = (h.0, figures-Known xs h.1)
  figures-Known (withheld_gap g ∷ xs) h = figures-Known xs h.1

  -- The selected figures were available at the cutoff.
  pub select_rows-Known :
      (src : Sources) (date_to : ℕ) → All Known (figures (select_rows src cutoff date_to))
  unfolding select_rows
  select_rows-Known src date_to = figures-Known (select_rows src cutoff date_to) (
      select_all-Known src cutoff (keep (is_available cutoff date_to) src.observations) _
        (All-keep KnownRow (is_available cutoff date_to) src.observations in_time))
    where
      in_time : (r : Row) → is_available cutoff date_to r ≡ true → KnownRow r
      in_time r h = unfold is_available in ground arith

  -- Every figure of a table was available at the cutoff.
  abbrev pub KnownSlot : Slot → Type 0
  KnownSlot ambiguous = Unit
  KnownSlot (held f) = Known f

  abbrev pub KnownTable : Table → Type 0
  KnownTable table = All (λ (e : Key × Slot). KnownSlot e.1) table

  abbrev pub KnownAt : Option Slot → Type 0
  KnownAt none = Unit
  KnownAt (some slot) = KnownSlot slot

  pub slot_at-Known : (key : Key) (table : Table) → KnownTable table → KnownAt (slot_at key table)
  unfolding slot_at
  slot_at-Known key [] h = tt
  slot_at-Known key ((k, slot) ∷ rest) h =
      if_both KnownAt (same_key k key) (some slot) (slot_at key rest) h.0
        (slot_at-Known key rest h.1)

  pub assign-Known :
      (key : Key) (slot : Slot) (table : Table)
      → KnownSlot slot
      → KnownTable table
      → KnownTable (assign key slot table)
  unfolding assign
  assign-Known key slot [] s h = (s, tt)
  assign-Known key slot ((k, old) ∷ rest) s h =
      if_both KnownTable (same_key k key) ((k, slot) ∷ rest) ((k, old) ∷ assign key slot rest)
        (s, h.1) (h.0, assign-Known key slot rest s h.1)
