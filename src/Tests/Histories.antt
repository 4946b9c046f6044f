-- ===== src/Tests/Histories.antt =====
-- The theorems on histories at concrete sources.
use zion_terminal.Base.{
  ◌≡◌, refl, true, false, ℕ, ◌+◌, [], ◌∷◌, none, some, List, Option, String, All, map, keep,
}
use zion_terminal.Base.Int.{pos, ◌+ℤ◌, ◌-ℤ◌, scale_by}
use zion_terminal.Base.Result.{ok, err}
use zion_terminal.SecEngine.Decimals.{Decimal}
use zion_terminal.SecEngine.Derivation.{Figure, Engine}
use zion_terminal.SecEngine.Sources.{Sources, Row, is_available}
use zion_terminal.SecEngine.Selection.{select_rows, figures}
use zion_terminal.SecEngine.Periods.{Key, ambiguous, Progress, slot_at, enter_all}
use zion_terminal.SecEngine.Output.{trailing}
use zion_terminal.SecEngine.Coverage.{HistoryResult}
use zion_terminal.SecEngine.History.{history}
use zion_terminal.SecEngine.Known.{Known}
use zion_terminal.SecEngine.Published.{history-Known}
use zion_terminal.SecEngine.Trailing.{TrailingYear, trailing-TrailingYear}
use zion_terminal.SecEngine.Vintage.{IsLatest, own_rows, select_rows-IsLatest}
use zion_terminal.SecEngine.Ambiguity.{quarters, IsAmbiguous, enter_all-IsAmbiguous}
use zion_terminal.SecEngine.LongQuarters.{infer_calendar}
use zion_terminal.SecEngine.InsideYear.{InYear, infer_calendar-InYear}
use zion_terminal.SecEngine.Balance.{BalanceIdentity, passed, is_balance_row, balance_identities}
use zion_terminal.SecEngine.Verdicts.{Sound, balance_identities-Sound}

-- A quarter's revenue.
abbrev revenue : ℕ → ℕ → String → String → Row
revenue start amount known id = record {
  metric = "revenue";
  concept = "us-gaap:Revenues";
  unit = "USD";
  currency = some "USD";
  period_start = some start;
  period_end = start + 90;
  available_at = known;
  form = "10-Q";
  value_decimal = some (record { digits = pos amount; places = 0 });
  source_observation_id = id;
}

-- Four quarters, the third one reported twice.
abbrev four_quarters : Sources
four_quarters = record {
  cik = "0000000001";
  observations =
      revenue 1000 10 "2023-05-01" "a"
      ∷ revenue 1091 20 "2023-08-01" "b"
      ∷ revenue 1182 30 "2023-11-01" "c"
      ∷ revenue 1182 35 "2024-01-01" "d"
      ∷ revenue 1273 40 "2024-02-01" "e"
      ∷ [];
  rejected_contexts = [];
  quarter_max_days = 105;
  long_quarter_contexts = [];
  debt_components = [];
  quarantined_metrics = [];
}

abbrev no_result : HistoryResult
no_result = record { observations = []; coverage_gaps = [] }

abbrev result_of : Engine HistoryResult → HistoryResult
result_of (ok r) = r
result_of (err e) = no_result

abbrev values : HistoryResult → List (Option Decimal)
values r = map (λ (f : Figure). f.value_decimal) r.observations

-- The year takes the later report of the third quarter.
a_year :
    values (result_of (history true four_quarters ("revenue" ∷ []) "ttm" 0 2000 "2024-03-01"))
    ≡ some (record { digits = pos 105; places = 0 }) ∷ []
unfolding history ◌+ℤ◌ scale_by
a_year = refl

history-Known_example :
    All
      (Known "2024-03-01")
      (result_of
        (history true four_quarters ("revenue" ∷ []) "ttm" 0 2000 "2024-03-01")).observations
unfolding history ◌+ℤ◌ scale_by
history-Known_example =
    history-Known true four_quarters ("revenue" ∷ []) "ttm" 0 2000 "2024-03-01" refl

select_rows-IsLatest_example :
    All
      (λ (f : Figure).
        IsLatest four_quarters "2024-03-01"
          (own_rows four_quarters "2024-03-01"
            (keep (is_available "2024-03-01" 2000) four_quarters.observations)
            f)
          f)
      (figures (select_rows four_quarters "2024-03-01" 2000))
select_rows-IsLatest_example = select_rows-IsLatest four_quarters "2024-03-01" 2000

-- A second figure for a quarter that two figures already disagree about.
abbrev a_figure : ℕ → Figure
a_figure amount = record {
  metric = "revenue";
  concept = "us-gaap:Revenues";
  unit = "USD";
  currency = some "USD";
  period_start = some 1000;
  period_end = 1090;
  value_decimal = some (record { digits = pos amount; places = 0 });
  available_at = "2023-05-01";
  form = "10-Q";
  is_derived = false;
  source_terms = [];
  source_observation_ids = "a" ∷ [];
}

abbrev first_quarter : Key
first_quarter = record { metric = "revenue"; period_start = some 1000; period_end = 1090 }

abbrev disputed : Progress
disputed = record {
  annual = [];
  quarterly = (first_quarter, ambiguous) ∷ [];
  anchors = [];
  gaps = [];
}

enter_all-IsAmbiguous_example : IsAmbiguous first_quarter disputed.quarterly
unfolding enter_all slot_at
enter_all-IsAmbiguous_example =
    enter_all-IsAmbiguous quarters four_quarters "2024-03-01" [] (a_figure 7 ∷ a_figure 8 ∷ [])
      disputed disputed first_quarter refl refl

abbrev figure_in : Engine Figure → Figure
figure_in (ok f) = f
figure_in (err e) = a_figure 0

abbrev figures_in : Engine (List Figure) → List Figure
figures_in (ok fs) = fs
figures_in (err e) = []

abbrev quarter : ℕ → ℕ → Figure
quarter start amount = record (a_figure amount) {
  period_start = some start;
  period_end = start + 90;
}

abbrev year_of_quarters : List Figure
year_of_quarters = quarter 1000 1 ∷ quarter 1091 2 ∷ quarter 1182 3 ∷ quarter 1273 4 ∷ []

trailing-TrailingYear_example :
    All (TrailingYear "revenue" year_of_quarters) (figures_in (trailing "revenue" year_of_quarters))
unfolding trailing ◌+ℤ◌ scale_by
trailing-TrailingYear_example = trailing-TrailingYear "revenue" year_of_quarters refl

-- Totals of one day, in dollars and in cents.
abbrev total_row : String → String → Decimal → Row
total_row metric concept value = record {
  metric = metric;
  concept = concept;
  unit = "USD";
  currency = some "USD";
  period_start = none;
  period_end = 1090;
  available_at = "2023-05-01";
  form = "10-K";
  value_decimal = some value;
  source_observation_id = concept;
}

abbrev balanced : Sources
balanced = record four_quarters {
  observations =
      total_row "balance_component:Assets" "us-gaap:Assets" (record { digits = pos 15; places = 1 })
      ∷ total_row "balance_component:LiabilitiesAndStockholdersEquity"
          "us-gaap:LiabilitiesAndStockholdersEquity" (record { digits = pos 150; places = 2 })
      ∷ [];
}

abbrev checks_in : Engine (List BalanceIdentity) → List BalanceIdentity
checks_in (ok cs) = cs
checks_in (err e) = []

one_passes :
    map
      (λ (c : BalanceIdentity). c.status)
      (checks_in (balance_identities balanced "2024-03-01" 0 2000))
    ≡ passed ∷ []
unfolding balance_identities ◌+ℤ◌ ◌-ℤ◌ scale_by
one_passes = refl

balance_identities-Sound_example :
    All
      (Sound balanced "2024-03-01"
        (keep (is_balance_row "2024-03-01" 0 2000) balanced.observations))
      (checks_in (balance_identities balanced "2024-03-01" 0 2000))
unfolding balance_identities ◌+ℤ◌ ◌-ℤ◌ scale_by
balance_identities-Sound_example = balance_identities-Sound balanced "2024-03-01" 0 2000 refl

-- A year of 52 weeks whose first quarter has 112 days.
abbrev cumulative : ℕ → String → String → String → Row
cumulative ending known form id = record (revenue 1000 7 known id) {
  period_end = ending;
  form = form;
}

abbrev long_year : List Row
long_year =
    cumulative 1111 "2023-05-01" "10-Q" "a"
    ∷ cumulative 1195 "2023-08-01" "10-Q" "b"
    ∷ cumulative 1279 "2023-11-01" "10-Q" "c"
    ∷ cumulative 1363 "2024-02-01" "10-K" "d"
    ∷ []

one_long_quarter :
    infer_calendar long_year
    ≡ record { period_start = 1000; period_end = 1111; available_at = "2024-02-01" } ∷ []
unfolding infer_calendar
one_long_quarter = refl

infer_calendar-InYear_example : All (InYear long_year) (infer_calendar long_year)
infer_calendar-InYear_example = infer_calendar-InYear long_year
