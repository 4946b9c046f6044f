-- ===== src/EquityClaims/Claims.antt =====
-- equity_claims.py: the claims for debt, cash and nonoperating assets, and their sums in the bridge
-- from enterprise value to equity. A claim keeps its amount, its state, its sources and whether it
-- may be used; notes, measures and digests are texts for readers and are left out.
use zion_terminal.Base.{
  ℕ, Bool, true, false, not, ◌&&◌, ◌||◌, Option, none, some, List, [], ◌∷◌, ◌++◌, map, String,
  str_eq, keep, is_empty, if◌then◌else◌,
}
use zion_terminal.Base.Int.{ℤ, pos, ◌+ℤ◌, ltb_ℤ, eq_ℤ}
use zion_terminal.Base.Result.{ok, ◌>>=◌}
use zion_terminal.Base.Json.{Fields}
use zion_terminal.Base.Dict.{Dict, put}
use zion_terminal.Base.Sorting.{sorted}
use zion_terminal.Base.Texts.{str_leb}
use zion_terminal.EquityClaims.Facts.{Reader, Claimed}
use zion_terminal.EquityClaims.Selection.{Source, selected}

pub data EvidenceState : Type 0 where
  reported derived_verified reviewed_absent assumed conflicting unavailable : EvidenceState

-- CERTIFIED_STATES
unfoldable pub is_certified : EvidenceState → Bool
is_certified reported = true
is_certified derived_verified = true
is_certified reviewed_absent = true
is_certified _ = false

unfoldable pub is_reviewed_absent : EvidenceState → Bool
is_reviewed_absent reviewed_absent = true
is_reviewed_absent _ = false

pub record Claim : Type 0 where
  pub value : Option ℤ
  pub state : EvidenceState
  pub sources : List Source
  pub permitted : Bool

abbrev pub absent : Claim
absent = record { value = none; state = reviewed_absent; sources = []; permitted = true }

-- `sorted(sources, key=lambda s: s["concept"])`, over one taxonomy
abbrev pub listed : List Source → List Source
listed sources = sorted (λ a b. str_leb a.concept b.concept) sources

abbrev pub reported_claim : ℤ → List Source → Claim
reported_claim z sources = record {
  value = some z;
  state = reported;
  sources = listed sources;
  permitted = true;
}

unfoldable pub found_as : String → Option Source → Dict Source → Dict Source
found_as concept none d = d
found_as concept (some s) d = (concept, s) ∷ d

module _ (R : Reader) (valuation : ℕ) (facts : Fields) where
  -- `group` with its default unit and taxonomy, over distinct concepts
  unfoldable pub group : List String → Claimed (Dict Source)
  unfolding selected found_as
  group [] = ok []
  group (concept ∷ concepts) = do
    s ← selected R "us-gaap" concept "USD" valuation facts
    rest ← group concepts
    ok (found_as concept s rest)

abbrev pub by_concept : String × Source → String × Source → Bool
by_concept a b = str_leb a.0 b.0

-- `[value for name, value in sorted(d.items())]`
unfoldable pub in_order : Dict Source → List Source
unfolding sorted
in_order d = map (λ e. e.1) (sorted by_concept d)

unfoldable pub head_of : List Source → Option Source
head_of [] = none
head_of (s ∷ ss) = some s

unfoldable pub sum : List Source → ℤ
unfolding ◌+ℤ◌
sum [] = pos 0
sum (s ∷ ss) = s.value +ℤ sum ss

-- The parts that are reported at the end of the total, unless they equal it.
unfoldable pub candidates_in : Source → List Source → List Source
candidates_in total parts =
    keep (λ p. str_eq p.period_end total.period_end && not (eq_ℤ p.value total.value)) parts

unfoldable pub exceeds : Source → List Source → Bool
exceeds total [] = false
exceeds total (p ∷ ps) = ltb_ℤ total.value p.value || exceeds total ps

-- The current claim: its amount, its sources, and the candidates that may be inside a total.
pub record Current : Type 0 where
  pub amount : ℤ
  pub sources : List Source
  pub candidates : List Source
  pub conflict : Bool

unfoldable pub current_debt : Option Source → List Source → Current
unfolding candidates_in exceeds sum
current_debt (some total) parts = record {
  amount = total.value;
  sources = total ∷ [];
  candidates = candidates_in total parts;
  conflict = exceeds total (candidates_in total parts);
}
current_debt none parts = record {
  amount = sum parts;
  sources = parts;
  candidates = [];
  conflict = false;
}

-- The noncurrent portion, or the combined total where there is none.
unfoldable pub noncurrent_debt : Option Source → Option Source → List Source
noncurrent_debt (some s) combined = s ∷ []
noncurrent_debt none (some s) = s ∷ []
noncurrent_debt none none = []

unfoldable pub debt_of : Current → List Source → Claim
unfolding sum ◌+ℤ◌
debt_of current noncurrent =
    if is_empty (current.sources ++ noncurrent)
    then absent
    else if current.conflict
    then record {
      value = none;
      state = conflicting;
      sources = listed ((current.sources ++ noncurrent) ++ current.candidates);
      permitted = false;
    }
    else reported_claim (current.amount +ℤ sum noncurrent) (current.sources ++ noncurrent)

unfoldable pub merged : Dict Source → Dict Source → Dict Source
unfolding put
merged d [] = d
merged d ((k, s) ∷ e) = merged (put k s d) e

abbrev pub current_borrowings : List String
current_borrowings = "CommercialPaper" ∷ "ShortTermBorrowings" ∷ "OtherShortTermBorrowings" ∷ []

unfoldable pub cash_of : Option Source → Claim
cash_of none = absent
cash_of (some s) = reported_claim s.value (s ∷ [])

unfoldable pub one_of : Option Source → List Source
one_of none = []
one_of (some s) = s ∷ []

unfoldable pub nonoperating_of : List Source → Claim
unfolding sum
nonoperating_of sources = if is_empty sources then absent else reported_claim (sum sources) sources

module _ (R : Reader) (valuation : ℕ) (facts : Fields) where
  unfoldable pub debt_claim : Claimed Claim
  unfolding group merged in_order head_of current_debt noncurrent_debt debt_of
  debt_claim = do
    current_total ← group R valuation facts ("DebtCurrent" ∷ [])
    current_parts ← group R valuation facts ("LongTermDebtCurrent" ∷ [])
    borrowings ← group R valuation facts current_borrowings
    noncurrent ← group R valuation facts ("LongTermDebtNoncurrent" ∷ [])
    combined ← group R valuation facts ("LongTermDebt" ∷ [])
    ok (
        debt_of
          (current_debt (head_of (in_order current_total))
            (in_order (merged current_parts borrowings)))
          (noncurrent_debt (head_of (in_order noncurrent)) (head_of (in_order combined))))

  unfoldable pub cash_claim : Claimed Claim
  unfolding group in_order head_of cash_of
  cash_claim = do
    found ← group R valuation facts ("CashAndCashEquivalentsAtCarryingValue" ∷ [])
    ok (cash_of (head_of (in_order found)))

  -- The excluded investments are selected for a note.
  unfoldable pub nonoperating_asset_claim : Claimed Claim
  unfolding group in_order head_of one_of nonoperating_of
  nonoperating_asset_claim = do
    cash ← group R valuation facts ("CashAndCashEquivalentsAtCarryingValue" ∷ [])
    short ← group R valuation facts ("ShortTermInvestments" ∷ "MarketableSecuritiesCurrent" ∷ [])
    noncurrent ← group R valuation facts ("MarketableSecuritiesNoncurrent" ∷ [])
    excluded ←
        group R valuation facts
          ("OtherLongTermInvestments" ∷ "EquitySecuritiesFvNi" ∷ "LongTermInvestments" ∷ [])
    ok (nonoperating_of (in_order cash ++ one_of (head_of (in_order short)) ++ in_order noncurrent))

-- The claims that go into the bridge.
pub record Bridge : Type 0 where
  pub debt : Claim
  pub finance_leases : Claim
  pub preferred_equity : Claim
  pub noncontrolling_interests : Claim
  pub cash : Claim
  pub nonoperating_assets : Claim

-- What a claim adds to its sum, `none` where it is missing.
unfoldable pub part_of : Option ℤ → EvidenceState → Option (List ℤ)
unfolding is_certified is_reviewed_absent
part_of none state = if is_reviewed_absent state then some [] else none
part_of (some z) state = if is_certified state then some (z ∷ []) else none

unfoldable pub both_parts : Option (List ℤ) → Option (List ℤ) → Option (List ℤ)
both_parts (some a) (some b) = some (a ++ b)
both_parts _ _ = none

unfoldable pub parts_of : List Claim → Option (List ℤ)
unfolding part_of both_parts
parts_of [] = some []
parts_of (c ∷ cs) = both_parts (part_of c.value c.state) (parts_of cs)

unfoldable pub total_of : List ℤ → ℤ
unfolding ◌+ℤ◌
total_of [] = pos 0
total_of (z ∷ zs) = z +ℤ total_of zs

-- The sums of an available aggregate; `none` is the status UNAVAILABLE.
pub record Aggregate : Type 0 where
  pub deduct_claims : ℤ
  pub add_claims : ℤ

unfoldable pub summed : Option (List ℤ) → Option (List ℤ) → Option Aggregate
unfolding total_of
summed (some deduct) (some add) =
    some (record { deduct_claims = total_of deduct; add_claims = total_of add })
summed _ _ = none

unfoldable pub aggregate_claims : Bridge → Option Aggregate
unfolding parts_of summed
aggregate_claims b =
    summed
      (parts_of (b.debt ∷ b.finance_leases ∷ b.preferred_equity ∷ b.noncontrolling_interests ∷ []))
      (parts_of (b.cash ∷ b.nonoperating_assets ∷ []))
