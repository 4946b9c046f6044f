-- ===== src/SecEngine/Registry.antt =====
-- sec_engine.py: the registry of metrics, the issuers with pinned revenue concepts and the issuers whose
-- debt components are quarantined.
use zion_terminal.Base.{
  ℕ, suc, Bool, true, false, ◌&&◌, ◌||◌, Option, none, some, List, [], ◌∷◌, String, str_eq, is_some,
  ◌≡◌, refl, if◌then◌else◌,
}
use zion_terminal.Base.Upper.{remove_prefix}

pub data Kind : Type 0 where
  flow instantaneous weighted : Kind

-- `REGISTRY[metric]["kind"]`
unfoldable pub kind_of : String → Option Kind
kind_of m =
    if str_eq m "revenue"
    then some flow
    else if str_eq m "operating_income"
    then some flow
    else if str_eq m "net_income"
    then some flow
    else if str_eq m "operating_cash_flow"
    then some flow
    else if str_eq m "capital_expenditures"
    then some flow
    else if str_eq m "cash"
    then some instantaneous
    else if str_eq m "total_debt"
    then some instantaneous
    else if str_eq m "diluted_shares"
    then some weighted
    else if str_eq m "free_cash_flow"
    then some flow
    else none

-- `metric in REGISTRY`
unfoldable pub in_registry : String → Bool
unfolding kind_of
in_registry m = is_some (kind_of m)

unfoldable pub is_flow : String → Bool
unfolding kind_of
is_flow m = elim (kind_of m) [ some flow ↦ true | _ ↦ false ]

-- `REGISTRY[metric]["concepts"]`
unfoldable pub concepts_of : String → List String
concepts_of m =
    if str_eq m "revenue"
    then "RevenueFromContractWithCustomerExcludingAssessedTax" ∷ "SalesRevenueNet" ∷ "Revenues" ∷ []
    else if str_eq m "operating_income"
    then "OperatingIncomeLoss" ∷ []
    else if str_eq m "net_income"
    then "NetIncomeLoss" ∷ []
    else if str_eq m "operating_cash_flow"
    then "NetCashProvidedByUsedInOperatingActivities" ∷ []
    else if str_eq m "capital_expenditures"
    then "PaymentsToAcquirePropertyPlantAndEquipment" ∷ []
    else if str_eq m "cash"
    then "CashAndCashEquivalentsAtCarryingValue" ∷ []
    else if str_eq m "diluted_shares"
    then "WeightedAverageNumberOfDilutedSharesOutstanding" ∷ []
    else []

-- `REVENUE_CONCEPTS.get(cik, ...)`, where the metric is the revenue
unfoldable pub ranked_concepts : String → String → List String
unfolding concepts_of
ranked_concepts cik m =
    if str_eq m "revenue" && (str_eq cik "0000909832" || str_eq cik "0000104169")
    then "Revenues" ∷ []
    else concepts_of m

-- `cik in DEBT_QUARANTINED`
abbrev pub is_quarantined : String → Bool
is_quarantined cik = str_eq cik "0000320193" || str_eq cik "0000909832"

-- `xs.index(x)`, where `x` is in `xs`
unfoldable pub index_of : String → List String → Option ℕ
index_of x [] = none
index_of x (y ∷ ys) =
    let rest = index_of x ys in
    if str_eq y x then some 0 else elim rest [ none ↦ none | some n ↦ some (suc n) ]

-- The rank of a native concept, if the list has it.
unfoldable pub rank : List String → String → Option ℕ
unfolding index_of remove_prefix
rank concepts concept = index_of (remove_prefix "us-gaap:" concept) concepts

second : rank (concepts_of "revenue") "us-gaap:SalesRevenueNet" ≡ some 1
unfolding rank concepts_of
second = refl
