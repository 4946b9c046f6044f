-- ===== src/EquityClaims/Doubling.antt =====
-- equity_claims.py: what the sums of the bridge are made of.
use zion_terminal.Base.{
  ℕ, Option, none, some, List, [], ◌∷◌, ◌++◌, String, ◌≡◌, refl, sym, ap, ◌∙◌, arith,
}
use zion_terminal.Base.Int.{ℤ, pos, negsuc, ◌+ℤ◌}
use zion_terminal.Base.Result.{ok, >>=-eq-ok, ok_injective}
use zion_terminal.Base.Json.{Fields}
use zion_terminal.Base.Dict.{Dict}
use zion_terminal.Base.Sorting.{sorted}
use zion_terminal.EquityClaims.Facts.{Reader}
use zion_terminal.EquityClaims.Selection.{Source, selected}
use zion_terminal.EquityClaims.Claims.{
  Claim, Bridge, Aggregate, group, in_order, head_of, one_of, sum, cash_claim, cash_of,
  nonoperating_asset_claim, nonoperating_of, aggregate_claims, parts_of, part_of, both_parts,
  summed, total_of, found_as, reported,
}

+ℤ-zero : (a : ℤ) → (a +ℤ pos 0) ≡ a
unfolding ◌+ℤ◌
+ℤ-zero (pos n) = ground arith
+ℤ-zero (negsuc n) = ground arith

abbrev cash_concept : String
cash_concept = "CashAndCashEquivalentsAtCarryingValue"

some_injective : {A : Type 0} {x y : A} → ◌≡◌ {A = Option A} (some x) (some y) → x ≡ y
some_injective h = cc

added :
    (c n : Claim) (deduct : Option (List ℤ)) (z y : ℤ) (a : Aggregate)
    → c.value ≡ some z
    → c.state ≡ reported
    → n.value ≡ some y
    → n.state ≡ reported
    → summed deduct (parts_of (c ∷ n ∷ [])) ≡ some a
    → a.add_claims ≡ z +ℤ y
unfolding summed parts_of part_of both_parts total_of
added c n deduct z y a cv cs nv ns h = named (rw (cv, cs, nv, ns) at h)
  where
    named : summed deduct (some (z ∷ y ∷ [])) ≡ some a → a.add_claims ≡ z +ℤ y
    named k = both deduct k
      where
        both : (d : Option (List ℤ)) → summed d (some (z ∷ y ∷ [])) ≡ some a → a.add_claims ≡ z +ℤ y
        both none k = cc
        both (some d) k = ap (λ x. x.add_claims) (sym (some_injective k)) ∙ rw (+ℤ-zero y) refl

doubled :
    (found : Option Source) (d cash : Dict Source) (xs ys : List Source) (b : Bridge) {z : ℤ}
    {a : Aggregate}
    → found_as cash_concept found [] ≡ d
    → cash ≡ d
    → cash_of (head_of (in_order d)) ≡ b.cash
    → nonoperating_of (in_order cash ++ xs ++ ys) ≡ b.nonoperating_assets
    → b.cash.value ≡ some z
    → aggregate_claims b ≡ some a
    → a.add_claims ≡ z +ℤ (z +ℤ sum (xs ++ ys))
unfolding found_as in_order sorted head_of cash_of nonoperating_of sum aggregate_claims
doubled none d cash xs ys b {z} {a} e f hc hn hv ha =
    let cash_is = sym (rw (sym e) at hc) in refused (rw cash_is at hv)
  where
    refused : {A : Type 0} → none ≡ some z → A
    refused k = cc
doubled (some s) d cash xs ys b {z} {a} e f hc hn hv ha =
    let cash_is = sym (rw (sym e) at hc) in
    let both_are = sym (rw (f, sym e) at hn) in
    let same = some_injective (rw cash_is at hv) in
    added b.cash b.nonoperating_assets
      (parts_of (b.debt ∷ b.finance_leases ∷ b.preferred_equity ∷ b.noncontrolling_interests ∷ []))
      z (z +ℤ sum (xs ++ ys)) a hv (ap (λ c. c.state) cash_is)
      (ap (λ c. c.value) both_are ∙ ap (λ x. some (x +ℤ sum (xs ++ ys))) same)
      (ap (λ c. c.state) both_are) ha

module _ (R : Reader) (valuation : ℕ) (facts : Fields) where
  single :
      (concept : String) (d : Dict Source)
      → group R valuation facts (concept ∷ []) ≡ ok d
      → (found : Option Source) × (found_as concept found [] ≡ d)
  unfolding group
  single concept d h =
      let (found, _, k) = >>=-eq-ok (selected R "us-gaap" concept "USD" valuation facts) _ h in
      (found, ok_injective k)

  -- Where cash is reported and the aggregate is available, the sum of what is added to enterprise
  -- value counts the cash twice: it is the cash, and the cash again with the first of the short
  -- investments and the noncurrent securities, since the claim for nonoperating assets includes it.
  pub add_claims-cash :
      (b : Bridge) {z : ℤ} {a : Aggregate}
      → cash_claim R valuation facts ≡ ok b.cash
      → nonoperating_asset_claim R valuation facts ≡ ok b.nonoperating_assets
      → b.cash.value ≡ some z
      → aggregate_claims b ≡ some a
      → (short noncurrent : Dict Source) × (group R valuation facts
            ("ShortTermInvestments" ∷ "MarketableSecuritiesCurrent" ∷ [])
          ≡ ok short)
        × (group R valuation facts ("MarketableSecuritiesNoncurrent" ∷ []) ≡ ok noncurrent)
        × (a.add_claims
            ≡ z +ℤ (z +ℤ sum (one_of (head_of (in_order short)) ++ in_order noncurrent)))
  unfolding cash_claim nonoperating_asset_claim
  add_claims-cash b {z} {a} hc hn hv ha =
      let (d, fc, kc) =
        >>=-eq-ok (group R valuation facts ("CashAndCashEquivalentsAtCarryingValue" ∷ [])) _ hc in
      let (cash, f1, k1) =
        >>=-eq-ok (group R valuation facts ("CashAndCashEquivalentsAtCarryingValue" ∷ [])) _ hn in
      let (short, f2, k2) =
        >>=-eq-ok
          (group R valuation facts ("ShortTermInvestments" ∷ "MarketableSecuritiesCurrent" ∷ [])) _
          k1 in
      let (noncurrent, f3, k3) =
        >>=-eq-ok (group R valuation facts ("MarketableSecuritiesNoncurrent" ∷ [])) _ k2 in
      let (_, _, k4) =
        >>=-eq-ok
          (group R valuation facts
            ("OtherLongTermInvestments" ∷ "EquitySecuritiesFvNi" ∷ "LongTermInvestments" ∷ []))
          _ k3 in
      let (found, e) = single cash_concept d fc in
      (
        short,
        noncurrent,
        f2,
        f3,
        doubled found d cash (one_of (head_of (in_order short))) (in_order noncurrent) b e
            (ok_injective (sym f1 ∙ fc)) (ok_injective kc) (ok_injective k4) hv ha,
      )
