-- ===== src/BalanceQuality/Suppression.antt =====
-- One period with incompatible units suppresses no other period.
use zion_terminal.Base.{true, none, some, List, [], ◌∷◌, ◌++◌, String, ◌≡◌, ◌⊎◌}
use zion_terminal.Base.Result.{ok, err}
use zion_terminal.BalanceQuality.Guard.{BalanceCheck}
use zion_terminal.BalanceQuality.Periods.{Comparator, is_incompatible}

-- The check says of the period that its totals cannot be compared, and gives no difference.
abbrev pub IsUnavailable : String → BalanceCheck → Type 0
IsUnavailable ending c =
    (c.status ≡ "UNAVAILABLE")
    × (c.period_end ≡ ending)
    × (c.reason ≡ some "LATEST_BALANCE_TOTALS_DIFFERENT_UNIT_OR_CURRENCY")
    × (c.difference_decimal ≡ none)

-- What stands for a period: the comparator's own checks, or one unavailable check where its units
-- fail.
abbrev pub Stands : Comparator → String → List BalanceCheck → Type 0
Stands comparator ending checks =
    (comparator ending ending ≡ ok checks)
    ⊎ ((code : String) × (c : BalanceCheck) × (comparator ending ending ≡ err code)
        × (is_incompatible code ≡ true)
        × (checks ≡ c ∷ [])
        × IsUnavailable ending c)

-- The checks are those of the periods, each of which has what stands for it, in their order.
abbrev pub Periods : Comparator → List String → List BalanceCheck → Type 0
Periods comparator [] checks = checks ≡ []
Periods comparator (ending ∷ ends) checks =
    (first : List BalanceCheck) × (others : List BalanceCheck) × (checks ≡ first ++ others)
    × Stands comparator ending first
    × Periods comparator ends others
