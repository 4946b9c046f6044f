-- ===== src/Valuation/Rows.antt =====
-- valuation_engine.py: what the loop over the roles has established of each input.
use zion_terminal.Base.{
  arith, Bool, true, false, not, List, [], ◌∷◌, ◌++◌, String, ◌≡◌, refl, sym, ap, ◌∙◌,
}
use mathlib.Core.List.{append_assoc, append-nil}
use zion_terminal.Valuation.Engine.{Gathering, gathered, gather_next, gather}
use zion_terminal.Base.Result.{ok, err, >>=-eq-ok, ok_injective}
use zion_terminal.Base.Int.{ℤ, leb_ℤ}
use zion_terminal.Base.Json.{Json, Fields, obj, get, truthy}
use zion_terminal.Base.Fractions.{Fraction}
use zion_terminal.Valuation.Numbers.{Checked, row_value}
use zion_terminal.Valuation.Formulas.{Numbers}
use zion_terminal.Valuation.Inputs.{require, instant, is_refused, source_ids_of, row_of, gather_row}

pub require-eq-ok : (b : Bool) (reason : String) {u : Unit} → require b reason ≡ ok u → b ≡ true
unfolding require
require-eq-ok true reason h = refl
require-eq-ok false reason h = cc

not-eq-true : (b : Bool) → not b ≡ true → b ≡ false
not-eq-true true h = cc
not-eq-true false h = refl

gathered_injective : {a b : List String} {m n : Numbers} → gathered a m ≡ gathered b n → n ≡ m
gathered_injective e = cc

gather_next-gathered :
    (ids : List String) (role : String) (c : Checked (List String × Fraction))
    (rest : List String → Fraction → Gathering) {more : List String} {n : Numbers}
    → gather_next ids role c rest ≡ gathered more n
    → (m : List String) × (x : Fraction) × (c ≡ ok (m, x)) × (rest (ids ++ m) x ≡ gathered more n)
unfolding gather_next
gather_next-gathered ids role (err reason) rest h = cc
gather_next-gathered ids role (ok (m, x)) rest h = (m, x, refl, h)

module _ (cutoff : ℤ) (inputs : Fields) where
  -- An input's row is permitted and sourced, was available at the cutoff and states the number.
  abbrev pub IsEstablished : String → Fraction → Type 0
  IsEstablished role n =
      (row : Fields) × (ids : List String) × (t : ℤ) × (get role inputs ≡ obj row)
      × (is_refused (get "quality" row) ≡ false)
      × (source_ids_of role (get "source_ids" row) ≡ ok ids)
      × (instant (get "available_at" row) ≡ ok t)
      × (leb_ℤ t cutoff ≡ true)
      × (row_value row ≡ ok n)

  -- The numbers are those of the roles, in their order.
  abbrev pub Rows : List String → Numbers → Type 0
  Rows [] [] = Unit
  Rows (role ∷ rest) ((k, n) ∷ more) = (k ≡ role) × IsEstablished role n × Rows rest more
  Rows _ _ = ⊥

  row_of_lem : (role : String) (x : Json) {row : Fields} → row_of role x ≡ ok row → x ≡ obj row
  unfolding row_of
  row_of_lem role x h = ground arith

  gather_row-IsEstablished :
      (role : String) {ids : List String} {n : Fraction}
      → gather_row cutoff inputs role ≡ ok (ids, n)
      → IsEstablished role n
  unfolding gather_row
  gather_row-IsEstablished role h =
      let (row, e, h1) = >>=-eq-ok (row_of role (get role inputs)) _ h in
      let (u, p, h2) = >>=-eq-ok (require (not (is_refused (get "quality" row))) _) _ h1 in
      let (more, q, h3) = >>=-eq-ok (source_ids_of role (get "source_ids" row)) _ h2 in
      let (v, a, h4) = >>=-eq-ok (require (truthy (get "available_at" row)) _) _ h3 in
      let (t, i, h5) = >>=-eq-ok (instant (get "available_at" row)) _ h4 in
      let (w, l, h6) = >>=-eq-ok (require (leb_ℤ t cutoff) _) _ h5 in
      let (m, r, h7) = >>=-eq-ok (row_value row) _ h6 in
      (
        row,
        more,
        t,
        row_of_lem role _ e,
        not-eq-true _ (require-eq-ok _ _ p),
        q,
        i,
        require-eq-ok _ _ l,
        r ∙ ap ok (ap (λ x. x.1) (ok_injective h7)),
      )

  pub gather-Rows :
      (rs ids : List String) (numbers : Numbers) {more : List String} {n : Numbers}
      → gather cutoff inputs rs ids numbers ≡ gathered more n
      → (new : Numbers) × (n ≡ numbers ++ new) × Rows rs new
  unfolding gather
  gather-Rows [] ids numbers h = ([], gathered_injective h ∙ sym (append-nil numbers), tt)
  gather-Rows (role ∷ rest) ids numbers h =
      let (m, x, e, k) = gather_next-gathered ids role (gather_row cutoff inputs role) _ h in
      let (new, q, rows) = gather-Rows rest (ids ++ m) (numbers ++ (role, x) ∷ []) k in
      (
        (role, x) ∷ new,
        q ∙ append_assoc numbers ((role, x) ∷ []) new,
        (refl, gather_row-IsEstablished role e, rows),
      )
