-- ===== src/SecEngine/Lookahead.antt =====
-- sec_engine.py: every stage of `history` keeps its tables to figures available at the cutoff.
use zion_terminal.Base.{not, Option, none, some, List, String, All, if_both}
use zion_terminal.Base.Result.{Ensures}
use zion_terminal.SecEngine.Decimals.{same_optional}
use zion_terminal.SecEngine.Derivation.{Figure}
use zion_terminal.SecEngine.Sources.{Sources}
use zion_terminal.SecEngine.Periods.{
  Key, Slot, ambiguous, held, Entries, Progress, slot_at, is_preferred, insert_at, insert,
  insert_annual, insert_quarterly, add_gap, enter_all,
}
use zion_terminal.SecEngine.Known.{Known, KnownTable, calculate_figure-Known, assign-Known}
use zion_terminal.SecEngine.Entering.{enter_all_keeps}

module _ (cutoff : String) where
  abbrev pub KnownProgress : Progress → Type 0
  KnownProgress p = KnownTable cutoff p.annual × KnownTable cutoff p.quarterly

  abbrev pub KnownEntries : Entries → Type 0
  KnownEntries s = KnownTable cutoff s.table

  insert_at-Known :
      (cik : String) (key : Key) (item : Figure) (s : Entries) (slot : Option Slot)
      → Known cutoff item
      → KnownEntries s
      → KnownEntries (insert_at cik key item s slot)
  unfolding insert_at
  insert_at-Known cik key item s none k h = assign-Known cutoff key (held item) s.table k h
  insert_at-Known cik key item s (some ambiguous) k h = h
  insert_at-Known cik key item s (some (held existing)) k h =
      if_both KnownEntries (not (same_optional existing.value_decimal item.value_decimal)) _ _
        (assign-Known cutoff key ambiguous s.table tt h)
        (if_both KnownEntries (is_preferred cik key item existing) _ s
          (assign-Known cutoff key (held item) s.table k h) h)

  insert-Known :
      (cik : String) (key : Key) (item : Figure) (s : Entries)
      → Known cutoff item
      → KnownEntries s
      → KnownEntries (insert cik key item s)
  unfolding insert
  insert-Known cik key item s k h = insert_at-Known cik key item s (slot_at key s.table) k h

  insert_annual-Known :
      (cik : String) (key : Key) (item : Figure) (p : Progress)
      → Known cutoff item
      → KnownProgress p
      → KnownProgress (insert_annual cik key item p)
  unfolding insert_annual
  insert_annual-Known cik key item p k h = (insert-Known cik key item _ k h.0, h.1)

  insert_quarterly-Known :
      (cik : String) (key : Key) (item : Figure) (p : Progress)
      → Known cutoff item
      → KnownProgress p
      → KnownProgress (insert_quarterly cik key item p)
  unfolding insert_quarterly
  insert_quarterly-Known cik key item p k h = (h.0, insert-Known cik key item _ k h.1)

  -- The loop over the selected figures enters nothing that became available later.
  pub enter_all-Known :
      (src : Sources) (limit : String) (selected items : List Figure) (p : Progress)
      → All (Known cutoff) items
      → All (Known cutoff) selected
      → KnownProgress p
      → Ensures KnownProgress (enter_all src limit selected items p)
  enter_all-Known =
      enter_all_keeps (Known cutoff) KnownProgress
        (λ operation metric start ending p ps f e.
          calculate_figure-Known cutoff operation metric start ending p ps e)
        insert_annual-Known insert_quarterly-Known gap (λ p xs h. h)
    where
      gap :
          (key : Key) (reason : String) (p : Progress)
          → KnownProgress p
          → KnownProgress (add_gap key reason p)
      gap key reason p h = unfold add_gap in h
