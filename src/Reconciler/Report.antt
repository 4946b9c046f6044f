-- ===== src/Reconciler/Report.antt =====
-- verification/reconciler.py: the match of each fact, and the report that counts them.
use zion_terminal.Base.{
  ℕ, ◌+◌, Bool, true, false, Option, none, some, List, [], ◌∷◌, ◌++◌, String, str_eq, is_some,
  if◌then◌else◌,
}
use zion_terminal.Base.Json.{str, number?}
use zion_terminal.Base.Upper.{lower, strip}
use zion_terminal.Models.Responses.{filled}
use zion_terminal.Reconciler.Compare.{
  CanonicalFact, ExtractedValue, ReconciliationMatch, MatchStatus, matched, scale_mismatch,
  sign_mismatch, missing, compare,
}

-- `_LABEL_MAP`
unfoldable pub label_map : String → List String
label_map name =
    if str_eq name "Revenues"
    then "Revenue" ∷ "Total Revenue" ∷ "Net Revenue" ∷ "Sales" ∷ []
    else if str_eq name "CostOfGoodsAndServicesSold"
    then "Cost of Revenue" ∷ "COGS" ∷ "Cost of Goods Sold" ∷ "Cost Of Revenue" ∷ []
    else if str_eq name "GrossProfit"
    then "Gross Profit" ∷ "Gross Income" ∷ []
    else if str_eq name "NetIncomeLoss"
    then "Net Income" ∷ "Net Income (Loss)" ∷ "Net Income Loss" ∷ []
    else if str_eq name "Assets"
    then "Total Assets" ∷ []
    else if str_eq name "Liabilities"
    then "Total Liabilities" ∷ []
    else if str_eq name "StockholdersEquity"
    then "Total Equity" ∷ "Stockholders Equity" ∷ "Total Stockholders' Equity" ∷ []
    else if str_eq name "OperatingIncomeLoss"
    then "Operating Income" ∷ "Operating Income (Loss)" ∷ []
    else if str_eq name "EarningsPerShareBasic"
    then "Basic EPS" ∷ "Earnings Per Share Basic" ∷ []
    else []

unfoldable pub lowered : List String → List String
unfolding lower
lowered [] = []
lowered (s ∷ ss) = lower s ∷ lowered ss

-- The labels that are tried for a fact, its own name first.
unfoldable pub candidate_labels : CanonicalFact → List String
unfolding lowered label_map
candidate_labels fact = lower fact.local_name ∷ lowered (label_map fact.local_name)

-- `md_by_label[label]`, which the last value of a label has filled
unfoldable pub value_labelled : String → List ExtractedValue → Option ExtractedValue
unfolding strip
value_labelled label [] = none
value_labelled label (mv ∷ mvs) =
    let rest = value_labelled label mvs in
    elim rest [
      | some later ↦ some later
      | none ↦ if str_eq (strip (lower mv.label)) label then some mv else none
    ]

-- The value of the first label that has one.
unfoldable pub first_value : List String → List ExtractedValue → Option ExtractedValue
unfolding value_labelled
first_value [] mvs = none
first_value (label ∷ labels) mvs =
    let rest = first_value labels mvs in
    elim (value_labelled label mvs) [ some mv ↦ some mv | none ↦ rest ]

unfoldable pub missing_match : CanonicalFact → ReconciliationMatch
missing_match fact = record {
  concept = fact.concept;
  xbrl_value = fact.value;
  markdown_value = none;
  markdown_label = "";
  status = missing;
  delta = none;
  delta_pct = none;
  notes = filled "No markdown match for {fact.local_name}" (str fact.local_name ∷ []);
}

-- The match of a fact once its value, if any, is found.
unfoldable pub match_with : ℕ → CanonicalFact → Option ExtractedValue → ReconciliationMatch
unfolding missing_match compare
match_with tol fact (some mv) = compare tol fact mv
match_with tol fact none = missing_match fact

-- `_find_match`
unfoldable pub find_match : ℕ → List ExtractedValue → CanonicalFact → ReconciliationMatch
unfolding candidate_labels first_value match_with
find_match tol mvs fact = match_with tol fact (first_value (candidate_labels fact) mvs)

pub record ReconciliationReport : Type 0 where
  pub facts_compared : ℕ
  pub facts_matched : ℕ
  pub facts_scale_mismatch : ℕ
  pub facts_sign_mismatch : ℕ
  pub facts_missing : ℕ
  pub matches : List ReconciliationMatch

abbrev pub is_matched : MatchStatus → Bool
is_matched matched = true
is_matched _ = false

abbrev pub is_scale_mismatch : MatchStatus → Bool
is_scale_mismatch scale_mismatch = true
is_scale_mismatch _ = false

abbrev pub is_sign_mismatch : MatchStatus → Bool
is_sign_mismatch sign_mismatch = true
is_sign_mismatch _ = false

abbrev pub is_missing : MatchStatus → Bool
is_missing missing = true
is_missing _ = false

abbrev pub bump : Bool → ℕ → ℕ
bump b n = if b then n + 1 else n

-- One round of the loop: the match is kept, and its status counted.
unfoldable pub add_match : ReconciliationReport → ReconciliationMatch → ReconciliationReport
add_match r m = record {
  facts_compared = r.facts_compared + 1;
  facts_matched = bump (is_matched m.status) r.facts_matched;
  facts_scale_mismatch = bump (is_scale_mismatch m.status) r.facts_scale_mismatch;
  facts_sign_mismatch = bump (is_sign_mismatch m.status) r.facts_sign_mismatch;
  facts_missing = bump (is_missing m.status) r.facts_missing;
  matches = r.matches ++ m ∷ [];
}

-- `isinstance(fact.value, (int, float))`
abbrev pub is_numeric : CanonicalFact → Bool
is_numeric fact = is_some (number? fact.value)

unfoldable pub reconcile_from :
    ℕ → List ExtractedValue → ReconciliationReport → List CanonicalFact → ReconciliationReport
unfolding add_match find_match
reconcile_from tol mvs r [] = r
reconcile_from tol mvs r (fact ∷ facts) =
    reconcile_from tol mvs (if is_numeric fact then add_match r (find_match tol mvs fact) else r)
      facts

abbrev pub empty_report : ReconciliationReport
empty_report = record {
  facts_compared = 0;
  facts_matched = 0;
  facts_scale_mismatch = 0;
  facts_sign_mismatch = 0;
  facts_missing = 0;
  matches = [];
}

-- `reconcile`, for a tolerance in units of 1 / 10000
unfoldable pub reconcile : ℕ → List CanonicalFact → List ExtractedValue → ReconciliationReport
unfolding reconcile_from
reconcile tol facts mvs = reconcile_from tol mvs empty_report facts
