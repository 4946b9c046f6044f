-- ===== src/SecEngine/Ambiguity.antt =====
-- sec_engine.py: a period about which two figures disagreed stays withheld in `history`.
use zion_terminal.Base.{
  ℕ, Bool, true, false, not, Option, none, some, List, [], ◌∷◌, String, str_eq_iff, ◌≡◌, refl, sym,
  ap, ◌∙◌, All, inl, inr, Bool-cases, arith, if◌then◌else◌, if_both,
}
use zion_terminal.Base.Result.{ok}
use zion_terminal.SecEngine.Decimals.{same_optional}
use zion_terminal.SecEngine.Derivation.{Figure}
use zion_terminal.SecEngine.Sources.{Sources, Intervals, same_start}
use zion_terminal.SecEngine.Periods.{
  Key, Slot, ambiguous, held, Table, Entries, Progress, same_key, slot_at, assign, is_preferred,
  insert_at, insert, insert_annual, insert_quarterly, add_gap, enter_all,
}
use zion_terminal.SecEngine.Versions.{same_start-eq}
use zion_terminal.SecEngine.Entering.{enter_all_keeps}

same_start_self : (a : Option ℕ) → same_start a a ≡ true
same_start_self none = refl
same_start_self (some a) = ground arith

same_key-eq : (a b : Key) → same_key a b ≡ true → a ≡ b
unfolding same_key
same_key-eq a b h =
    ground (arith, str_eq_iff a.metric b.metric, same_start-eq a.period_start b.period_start)

same_key_self : (a : Key) → same_key a a ≡ true
unfolding same_key
same_key_self a = ground (arith, str_eq_iff a.metric a.metric, same_start_self a.period_start)

same_key_flip : (a b : Key) → same_key a b ≡ false → same_key b a ≡ false
same_key_flip a b h = elim (Bool-cases (same_key b a)) [
  | inl e ↦ refused (sym (rw (same_key-eq b a e) (same_key_self a)) ∙ h)
  | inr e ↦ e
]
  where
    refused : {A : Type 0} → true ≡ false → A
    refused e = cc

-- An entry at another key changes nothing.
slot_at-assign :
    (key k : Key) (x : Slot) (table : Table)
    → same_key k key ≡ false
    → slot_at key (assign k x table) ≡ slot_at key table
unfolding slot_at assign
slot_at-assign key k x [] h = rw h refl
slot_at-assign key k x ((j, old) ∷ rest) h =
    split (slot_at-assign key k x rest h) (same_key j k) refl
  where
    split :
        slot_at key (assign k x rest) ≡ slot_at key rest
        → (b : Bool) → same_key j k ≡ b
        → slot_at key (if b then (j, x) ∷ rest else (j, old) ∷ assign k x rest)
          ≡ slot_at key ((j, old) ∷ rest)
    split later true e =
        let other : same_key j key ≡ false = rw (same_key-eq j k e) h in rw other refl
    split later false e = ap (λ s. if same_key j key then some old else s) later

-- The key's value is that of two figures that disagreed.
abbrev pub IsAmbiguous : Key → Table → Type 0
IsAmbiguous key table = slot_at key table ≡ some ambiguous

insert_at_other :
    (cik : String) (key k : Key) (item : Figure) (s : Entries) (slot : Option Slot)
    → same_key k key ≡ false
    → IsAmbiguous key s.table
    → IsAmbiguous key (insert_at cik k item s slot).table
unfolding insert_at
insert_at_other cik key k item s none n h = slot_at-assign key k (held item) s.table n ∙ h
insert_at_other cik key k item s (some ambiguous) n h = h
insert_at_other cik key k item s (some (held existing)) n h =
    if_both (λ (t : Entries). IsAmbiguous key t.table)
      (not (same_optional existing.value_decimal item.value_decimal)) _ _
      (slot_at-assign key k ambiguous s.table n ∙ h)
      (if_both (λ (t : Entries). IsAmbiguous key t.table) (is_preferred cik k item existing) _ s
        (slot_at-assign key k (held item) s.table n ∙ h) h)

insert_at_ambiguous :
    (cik : String) (key k : Key) (item : Figure) (s : Entries) (slot : Option Slot)
    → slot ≡ some ambiguous
    → IsAmbiguous key s.table
    → IsAmbiguous key (insert_at cik k item s slot).table
unfolding insert_at
insert_at_ambiguous cik key k item s none e h = cc
insert_at_ambiguous cik key k item s (some ambiguous) e h = h
insert_at_ambiguous cik key k item s (some (held existing)) e h = cc

-- `insert` revives no key.
insert-IsAmbiguous :
    (cik : String) (key k : Key) (item : Figure) (s : Entries)
    → IsAmbiguous key s.table
    → IsAmbiguous key (insert cik k item s).table
unfolding insert
insert-IsAmbiguous cik key k item s h = elim (Bool-cases (same_key k key)) [
  | inl e ↦ insert_at_ambiguous cik key k item s (slot_at k s.table) (rw (same_key-eq k key e) h) h
  | inr e ↦ insert_at_other cik key k item s (slot_at k s.table) e h
]

-- The two tables that the loop fills: the years, and the quarters.
pub data Filled : Type 0 where
  years quarters : Filled

abbrev pub table_in : Filled → Progress → Table
table_in years p = p.annual
table_in quarters p = p.quarterly

module _ (key : Key) where
  insert_annual-IsAmbiguous :
      (of : Filled) (cik : String) (k : Key) (item : Figure) (p : Progress)
      → Unit {0}
      → IsAmbiguous key (table_in of p)
      → IsAmbiguous key (table_in of (insert_annual cik k item p))
  unfolding insert_annual
  insert_annual-IsAmbiguous years cik k item p u h = insert-IsAmbiguous cik key k item _ h
  insert_annual-IsAmbiguous quarters cik k item p u h = h

  insert_quarterly-IsAmbiguous :
      (of : Filled) (cik : String) (k : Key) (item : Figure) (p : Progress)
      → Unit {0}
      → IsAmbiguous key (table_in of p)
      → IsAmbiguous key (table_in of (insert_quarterly cik k item p))
  unfolding insert_quarterly
  insert_quarterly-IsAmbiguous years cik k item p u h = h
  insert_quarterly-IsAmbiguous quarters cik k item p u h = insert-IsAmbiguous cik key k item _ h

  add_gap-IsAmbiguous :
      (of : Filled) (k : Key) (reason : String) (p : Progress)
      → IsAmbiguous key (table_in of p)
      → IsAmbiguous key (table_in of (add_gap k reason p))
  unfolding add_gap
  add_gap-IsAmbiguous years k reason p h = h
  add_gap-IsAmbiguous quarters k reason p h = h

  anchored-IsAmbiguous :
      (of : Filled) (p : Progress) (xs : Intervals)
      → IsAmbiguous key (table_in of p)
      → IsAmbiguous key (table_in of (record p { anchors = xs }))
  anchored-IsAmbiguous years p xs h = h
  anchored-IsAmbiguous quarters p xs h = h

always : (items : List Figure) → All (λ (f : Figure). Unit {0}) items
always [] = tt
always (f ∷ items) = (tt, always items)

-- Ambiguity is final: a year whose figures disagreed in the table of years, or a period whose figures
-- disagreed in the table of quarters, stays withheld in that table, whatever figures the loop enters or
-- derives after them. Each table is on its own, whatever stands in the other.
pub enter_all-IsAmbiguous :
    (of : Filled) (src : Sources) (cutoff : String) (selected items : List Figure) (p q : Progress)
    (key : Key)
    → enter_all src cutoff selected items p ≡ ok q
    → IsAmbiguous key (table_in of p)
    → IsAmbiguous key (table_in of q)
enter_all-IsAmbiguous of src cutoff selected items p q key e h =
    (enter_all_keeps (λ f. Unit {0}) (λ r. IsAmbiguous key (table_in of r))
        (λ operation metric start ending a b f d u v. tt) (insert_annual-IsAmbiguous key of)
        (insert_quarterly-IsAmbiguous key of) (add_gap-IsAmbiguous key of)
        (anchored-IsAmbiguous key of) src cutoff selected items p (always items) (always selected)
        h).returned
      q e
