-- ===== src/EquityClaims/Eligible.antt =====
-- equity_claims.py: the rows of facts that are eligible at a valuation date.
use zion_terminal.Base.{
  ℕ, ◌-◌, ◌≤◌, true, false, Option, none, some, String, ◌≡◌, refl, arith, leb, leb→le, and_parts,
}
use zion_terminal.Base.Int.{ℤ, leb_ℤ}
use zion_terminal.Base.Json.{Json, null, bool, num, obj, arr, str, Fields, get}
use zion_terminal.EquityClaims.Facts.{
  Reader, end_of_day_utc, ended_by, filed_of, text_day, is_available,
}
use zion_terminal.EquityClaims.Selection.{is_eligible, in_window, text_in, max_age_days}
use zion_terminal.EquityClaims.Available.{Available}

text_day-text_in :
    (R : Reader) (k : String) (row : Fields) (n : ℕ)
    → text_day R (get k row) ≡ some n
    → R.fromisoformat (text_in k (obj row)) ≡ some n
unfolding text_in text_day
text_day-text_in R k row n h = read (get k row) h
  where
    read :
        (x : Json)
        → text_day R x ≡ some n
        → R.fromisoformat (elim x [ str s ↦ s | _ ↦ "" ]) ≡ some n
    read (str s) e = e
    read null e = cc
    read (bool _) e = cc
    read (num _) e = cc
    read (arr _) e = cc
    read (obj _) e = cc

-- A key that holds the text of a date holds that text.
text_day-get :
    (R : Reader) (k : String) (row : Fields) (n : ℕ)
    → text_day R (get k row) ≡ some n
    → get k row ≡ str (text_in k (obj row))
unfolding text_in text_day
text_day-get R k row n h = read (get k row) h
  where
    read : (x : Json) → text_day R x ≡ some n → x ≡ str (elim x [ str s ↦ s | _ ↦ "" ])
    read (str s) e = refl
    read null e = cc
    read (bool _) e = cc
    read (num _) e = cc
    read (arr _) e = cc
    read (obj _) e = cc

never : {A : Type 0} → false ≡ true → A
never h = cc

-- The fact was filed by the valuation date and available at the cutoff, its period ended within
-- the window, and its amount is the one in its row.
pub record IsCurrent (R : Reader) (cutoff : ℤ) (valuation : ℕ) (filed ended : String) : Type 0 where
  pub filed_day : ℕ
  pub end_day : ℕ
  pub filed_on : R.fromisoformat filed ≡ some filed_day
  pub ended_on : R.fromisoformat ended ≡ some end_day
  pub filed_before : filed_day ≤ valuation
  pub available : leb_ℤ (end_of_day_utc filed_day) cutoff ≡ true
  pub not_stale : valuation - max_age_days ≤ end_day
  pub not_future : end_day ≤ valuation

-- A row of an eligible fact is a dict whose two dates are texts.
abbrev pub Dated : Json → Type 0
Dated row =
    (d : Fields) × (row ≡ obj d)
    × (get "end" d ≡ str (text_in "end" row))
    × (get "filed" d ≡ str (text_in "filed" row))

module _ (R : Reader) (cutoff : ℤ) (valuation : ℕ) where
  window :
      (row : Fields) (ended filed : Option ℕ)
      → text_day R (get "end" row) ≡ ended
      → text_day R (get "filed" row) ≡ filed
      → in_window valuation ended filed ≡ true
      → ended_by cutoff filed ≡ true
      → IsCurrent R cutoff valuation (text_in "filed" (obj row)) (text_in "end" (obj row))
  unfolding in_window ended_by
  window row (some e) (some f) he hf w a =
      let (filed, rest) = and_parts (leb f valuation) _ w in
      let (stale, future) = and_parts (leb (valuation - max_age_days) e) (leb e valuation) rest in
      record {
        filed_day = f;
        end_day = e;
        filed_on = text_day-text_in R "filed" row f hf;
        ended_on = text_day-text_in R "end" row e he;
        filed_before = leb→le f valuation filed;
        available = a;
        not_stale = leb→le (valuation - max_age_days) e stale;
        not_future = leb→le e valuation future;
      }
  window row none filed he hf w a = cc
  window row (some e) none he hf w a = cc

  pub row-IsCurrent :
      (row : Json)
      → Available R cutoff row
      → is_eligible R valuation row ≡ true
      → IsCurrent R cutoff valuation (text_in "filed" row) (text_in "end" row)
  unfolding is_eligible is_available filed_of
  row-IsCurrent (obj row) a h =
      window row (text_day R (get "end" row)) (text_day R (get "filed" row)) refl refl
        (ground arith) a
  row-IsCurrent null a h = never h
  row-IsCurrent (bool _) a h = never h
  row-IsCurrent (num _) a h = never h
  row-IsCurrent (str _) a h = never h
  row-IsCurrent (arr _) a h = never h

  window-Dated :
      (row : Fields) (ended filed : Option ℕ)
      → text_day R (get "end" row) ≡ ended
      → text_day R (get "filed" row) ≡ filed
      → in_window valuation ended filed ≡ true
      → Dated (obj row)
  unfolding in_window
  window-Dated row (some e) (some f) he hf w =
      (row, refl, text_day-get R "end" row e he, text_day-get R "filed" row f hf)
  window-Dated row none filed he hf w = cc
  window-Dated row (some e) none he hf w = cc

  pub row-Dated : (row : Json) → is_eligible R valuation row ≡ true → Dated row
  unfolding is_eligible
  row-Dated (obj row) h =
      window-Dated row (text_day R (get "end" row)) (text_day R (get "filed" row)) refl refl
        (ground arith)
  row-Dated null h = never h
  row-Dated (bool _) h = never h
  row-Dated (num _) h = never h
  row-Dated (str _) h = never h
  row-Dated (arr _) h = never h
