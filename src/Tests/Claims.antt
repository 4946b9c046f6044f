-- ===== src/Tests/Claims.antt =====
-- equity_claims.py: a filer with cash, a current total of its debt and a noncurrent part.
use zion_terminal.Base.{
  ℕ, Option, none, some, List, [], ◌∷◌, ◌++◌, String, str_eq, ◌≡◌, refl, if◌then◌else◌,
}
use zion_terminal.Base.Int.{ℤ, pos, ◌+ℤ◌, ◌-ℤ◌}
use zion_terminal.Base.Result.{ok}
use zion_terminal.Base.Json.{Json, null, num, str, arr, obj, nil, cons, Fields, end, field}
use zion_terminal.Base.Dict.{Dict}
use zion_terminal.Base.Texts.{str_leb}
use zion_terminal.Base.Sorting.{sorted}
use zion_terminal.EquityClaims.Facts.{Reader, Token, finite, unreadable, restrict_to_available}
use zion_terminal.EquityClaims.Selection.{Source, selected, eligible}
use zion_terminal.EquityClaims.Claims.{
  Claim, Bridge, absent, group, in_order, head_of, one_of, sum, merged, current_borrowings,
  debt_claim, cash_claim, nonoperating_asset_claim, reported_claim, aggregate_claims,
}
use zion_terminal.EquityClaims.Chosen.{IsLatest, selected-IsLatest}
use zion_terminal.EquityClaims.Doubling.{add_claims-cash}
use zion_terminal.EquityClaims.Debt.{CountsOnce, noncurrent_part, debt_claim-CountsOnce}

abbrev day_number : String → Option ℕ
day_number s =
    if str_eq s "2024-03-31"
    then some 738976
    else if str_eq s "2024-05-01"
    then some 739007
    else none

abbrev token_of : Json → Token
token_of (num z) = finite z
token_of _ = unreadable

abbrev text_of : Json → String
text_of (str s) = s
text_of _ = "None"

abbrev reader : Reader
reader = record { fromisoformat = day_number; decimal = token_of; text = text_of }

abbrev fact : ℕ → Json
fact n = obj (
    field "val" (num (pos n)) (
      field "end" (str "2024-03-31")
        (field "filed" (str "2024-05-01") (field "accn" (str "0001") end))))

abbrev concept : ℕ → Json
concept n = obj (field "units" (obj (field "USD" (arr (cons (fact n) nil)) end)) end)

abbrev facts : Fields
facts =
    field "us-gaap"
      (obj (
        field "CashAndCashEquivalentsAtCarryingValue" (concept 500) (
          field "DebtCurrent" (concept 200) (
            field "LongTermDebtCurrent" (concept 150) (
              field "LongTermDebtNoncurrent" (concept 900)
                (field "MarketableSecuritiesCurrent" (concept 70) end))))))
      end

abbrev valuation : ℕ
valuation = 739010

-- After the end of the day of filing
abbrev cutoff : ℤ
cutoff = pos 1714694400000000000

abbrev known_facts : Fields
known_facts = restrict_to_available reader cutoff facts

abbrev source_at : String → ℕ → Source
source_at name n = record {
  taxonomy = "us-gaap";
  concept = name;
  unit = "USD";
  reported = num (pos n);
  value = pos n;
  period_end = "2024-03-31";
  form = null;
  accession = str "0001";
  filed = "2024-05-01";
}

cash_selected :
    selected reader "us-gaap" "CashAndCashEquivalentsAtCarryingValue" "USD" valuation known_facts
    ≡ ok (some (source_at "CashAndCashEquivalentsAtCarryingValue" 500))
unfolding selected restrict_to_available ◌-ℤ◌
cash_selected = refl

selected-IsLatest_example :
    (rows : List Json) × (eligible reader valuation "us-gaap"
        "CashAndCashEquivalentsAtCarryingValue" "USD" known_facts
      ≡ ok rows)
    × IsLatest reader cutoff valuation rows (source_at "CashAndCashEquivalentsAtCarryingValue" 500)
selected-IsLatest_example =
    selected-IsLatest reader cutoff valuation "us-gaap" "CashAndCashEquivalentsAtCarryingValue"
      "USD" facts cash_selected

abbrev found_cash : Claim
found_cash = reported_claim (pos 500) (source_at "CashAndCashEquivalentsAtCarryingValue" 500 ∷ [])

abbrev found_assets : Claim
found_assets = reported_claim (pos 570) (
    source_at "CashAndCashEquivalentsAtCarryingValue" 500
    ∷ source_at "MarketableSecuritiesCurrent" 70
    ∷ [])

abbrev bridge : Bridge
bridge = record {
  debt = absent;
  finance_leases = absent;
  preferred_equity = absent;
  noncontrolling_interests = absent;
  cash = found_cash;
  nonoperating_assets = found_assets;
}

cash_found : cash_claim reader valuation facts ≡ ok found_cash
unfolding cash_claim sorted
cash_found = refl

assets_found : nonoperating_asset_claim reader valuation facts ≡ ok found_assets
unfolding nonoperating_asset_claim sorted str_leb
assets_found = refl

-- 500 is added twice.
sums : aggregate_claims bridge ≡ some (record { deduct_claims = pos 0; add_claims = pos 1070 })
unfolding aggregate_claims
sums = refl

add_claims-cash_example :
    (short noncurrent : Dict Source) × (group reader valuation facts
        ("ShortTermInvestments" ∷ "MarketableSecuritiesCurrent" ∷ [])
      ≡ ok short)
    × (group reader valuation facts ("MarketableSecuritiesNoncurrent" ∷ []) ≡ ok noncurrent)
    × (pos 1070
        ≡ pos 500 +ℤ (pos 500 +ℤ sum (one_of (head_of (in_order short)) ++ in_order noncurrent)))
add_claims-cash_example =
    add_claims-cash reader valuation facts bridge cash_found assets_found refl sums

abbrev debt_found : Claim
debt_found =
    reported_claim (pos 1100)
      (source_at "DebtCurrent" 200 ∷ source_at "LongTermDebtNoncurrent" 900 ∷ [])

debt_is : debt_claim reader valuation facts ≡ ok debt_found
unfolding debt_claim sorted str_leb
debt_is = refl

total_stated :
    group reader valuation facts ("DebtCurrent" ∷ [])
    ≡ ok (("DebtCurrent", source_at "DebtCurrent" 200) ∷ [])
unfolding group
total_stated = refl

first_total :
    head_of (in_order (("DebtCurrent", source_at "DebtCurrent" 200) ∷ []))
    ≡ some (source_at "DebtCurrent" 200)
unfolding head_of in_order
first_total = refl

debt_claim-CountsOnce_example :
    (parts : Dict Source) × (borrowings : Dict Source) × (noncurrent : Dict Source)
    × (long_term : Dict Source) × (group reader valuation facts ("LongTermDebtCurrent" ∷ [])
        ≡ ok parts)
    × (group reader valuation facts current_borrowings ≡ ok borrowings)
    × (group reader valuation facts ("LongTermDebtNoncurrent" ∷ []) ≡ ok noncurrent)
    × (group reader valuation facts ("LongTermDebt" ∷ []) ≡ ok long_term)
    × CountsOnce debt_found
        (source_at "DebtCurrent" 200)
        (in_order (merged parts borrowings))
        (noncurrent_part (head_of (in_order noncurrent)) (head_of (in_order long_term)))
debt_claim-CountsOnce_example =
    debt_claim-CountsOnce reader valuation facts debt_is total_stated first_total
