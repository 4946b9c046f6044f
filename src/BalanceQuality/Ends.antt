-- ===== src/BalanceQuality/Ends.antt =====
-- sec_engine.py: the period ends that `balance_checks` compares one by one.
use zion_terminal.Base.{
  Bool, true, false, ◌&&◌, Option, none, some, List, [], ◌∷◌, ◌++◌, String, ◌≡◌, refl, sym, ◌⊎◌,
  inl, inr, ◌↔◌, All-In, In, In-append_left, In-append_right, each-In, Bool-cases, str_eq,
  str_eq_iff, and_parts, if◌then◌else◌,
}
use mathlib.Core.Path.{subst}
use zion_terminal.Base.Sorting.{sorted, In-sorted, All-sorted, IsSorted, sorted-IsSorted}
use zion_terminal.Base.Texts.{str_leb, str_leb_total}
use zion_terminal.Base.Upper.{is_prefix}
use zion_terminal.Retrieval.{member, distinct}
use zion_terminal.BalanceQuality.Guard.{Observation}
use zion_terminal.BalanceQuality.Periods.{end_of, all_ends, period_ends, no_date}

-- The ends ascend.
abbrev pub Ascend : List String → Type 0
Ascend = IsSorted str_leb

-- The row is a balance component at an instant, within the range and available at the cutoff.
abbrev pub EndsAt : String → String → String → Observation → String → Type 0
EndsAt date_from date_to cutoff row ending =
    (row.period_end ≡ some ending)
    × (is_prefix "balance_component:" row.metric ≡ true)
    × (row.period_start ≡ none)
    × (str_leb date_from ending ≡ true)
    × (str_leb ending date_to ≡ true)
    × (str_leb row.available_at cutoff ≡ true)

-- Some row of the balance ends then.
abbrev pub IsEnd : String → String → String → List Observation → String → Type 0
IsEnd date_from date_to cutoff rows ending =
    (row : Observation) × In row rows × EndsAt date_from date_to cutoff row ending

no_date_lem : (o : Option String) → no_date o ≡ true → o ≡ none
no_date_lem none h = refl
no_date_lem (some s) h = cc

In-append_split : {A : Type 0} (x : A) (xs ys : List A) → In x (xs ++ ys) → In x xs ⊎ In x ys
In-append_split x [] ys h = inr h
In-append_split x (y ∷ xs) ys (inl e) = inl (inl e)
In-append_split x (y ∷ xs) ys (inr h) = elim (In-append_split x xs ys h) [
  | inl i ↦ inl (inr i)
  | inr i ↦ inr i
]

member→In : (s : String) (xs : List String) → member s xs ≡ true → In s xs
unfolding member
member→In s [] h = cc
member→In s (x ∷ xs) h = elim (Bool-cases (str_eq x s)) [
  | inl e ↦ inl ((str_eq_iff x s).0 e)
  | inr e ↦ inr (member→In s xs (rw e at h))
]

In-distinct : (s : String) (xs : List String) → In s (distinct xs) ↔ In s xs
unfolding distinct
In-distinct s [] = (λ h. h, λ h. h)
In-distinct s (x ∷ xs) =
    let (to, from) = In-distinct s xs in
    elim (Bool-cases (member x xs)) [
      | inl e ↦ rw e (
        λ h. inr (to h),
        λ i. elim i [ inl k ↦ from (subst (λ y. In y xs) k (member→In x xs e)) | inr h ↦ from h ],
      )
      | inr e ↦ rw e (
        λ i. elim i [ inl k ↦ inl k | inr h ↦ inr (to h) ],
        λ i. elim i [ inl k ↦ inl k | inr h ↦ inr (from h) ],
      )
    ]

module _ (date_from date_to cutoff : String) where
  abbrev fits : Observation → String → Bool
  fits row at =
      is_prefix "balance_component:" row.metric
      && (no_date row.period_start
          && (str_leb date_from at && (str_leb at date_to && str_leb row.available_at cutoff)))

  fitting :
      (row : Observation) (ending : String) (at : String)
      → row.period_end ≡ some at
      → at ≡ ending
      → fits row at ≡ true
      → EndsAt date_from date_to cutoff row ending
  fitting row ending at e k b =
      let (metric, b1) = and_parts _ _ b in
      let (start, b2) = and_parts _ _ b1 in
      let (later, b3) = and_parts _ _ b2 in
      let (earlier, known) = and_parts _ _ b3 in
      rw (sym k) (e, metric, no_date_lem row.period_start start, later, earlier, known)

  branch :
      (row : Observation) (ending : String) (at : String) (b : Bool)
      → row.period_end ≡ some at
      → fits row at ≡ b
      → In ending (if b then at ∷ [] else [])
      → EndsAt date_from date_to cutoff row ending
  branch row ending at true e k (inl same) = fitting row ending at e same k
  branch row ending at true e k (inr i) = elim i [ ]
  branch row ending at false e k i = elim i [ ]

  read :
      (row : Observation) (ending : String) (o : Option String)
      → row.period_end ≡ o
      → In ending (elim o [ none ↦ [] | some at ↦ if fits row at then at ∷ [] else [] ])
      → EndsAt date_from date_to cutoff row ending
  read row ending none e i = elim i [ ]
  read row ending (some at) e i = branch row ending at (fits row at) e refl i

  end_of-EndsAt :
      (row : Observation) (ending : String)
      → In ending (end_of date_from date_to cutoff row)
      → EndsAt date_from date_to cutoff row ending
  unfolding end_of
  end_of-EndsAt row ending h = read row ending row.period_end refl h

  EndsAt-end_of :
      (row : Observation) (ending : String)
      → EndsAt date_from date_to cutoff row ending
      → In ending (end_of date_from date_to cutoff row)
  unfolding end_of
  EndsAt-end_of row ending (e, metric, start, later, earlier, known) =
      rw (e, metric, start, later, earlier, known) (inl refl)

  all_ends-IsEnd :
      (rows : List Observation) (ending : String)
      → In ending (all_ends date_from date_to cutoff rows)
        ↔ IsEnd date_from date_to cutoff rows ending
  unfolding all_ends
  all_ends-IsEnd [] ending = (λ h. elim h [ ], λ (row, i, e). elim i [ ])
  all_ends-IsEnd (row ∷ rows) ending =
      let own = end_of date_from date_to cutoff row in
      let others = all_ends date_from date_to cutoff rows in
      let (to, from) = all_ends-IsEnd rows ending in
      (
        λ h. elim (In-append_split ending own others h) [
          | inl i ↦ (row, inl refl, end_of-EndsAt row ending i)
          | inr i ↦ let (r, j, e) = to i in (r, inr j, e)
        ],
        λ (r, j, e). elim j [
          | inl k ↦ In-append_left ending own others (
              EndsAt-end_of row ending
                (subst (λ x. EndsAt date_from date_to cutoff x ending) (sym k) e))
          | inr i ↦ In-append_right ending own others (from (r, i, e))
        ],
      )

  -- The ends are those of the balance components in the range.
  pub period_ends-IsEnd :
      (rows : List Observation) (ending : String)
      → In ending (period_ends date_from date_to cutoff rows)
        ↔ IsEnd date_from date_to cutoff rows ending
  unfolding period_ends
  period_ends-IsEnd rows ending =
      let ends = all_ends date_from date_to cutoff rows in
      let (to, from) = all_ends-IsEnd rows ending in
      let (down, up) = In-distinct ending ends in
      (
        λ i. to (
            down (
              All-In (λ x. In x (distinct ends)) ending (sorted str_leb (distinct ends))
                (All-sorted str_leb (λ x. In x (distinct ends)) (distinct ends)
                  (each-In (distinct ends)))
                i)),
        λ h. In-sorted str_leb ending (distinct ends) (up (from h)),
      )

  pub period_ends-Ascend :
      (rows : List Observation) → Ascend (period_ends date_from date_to cutoff rows)
  unfolding period_ends
  period_ends-Ascend rows =
      sorted-IsSorted str_leb str_leb_total (distinct (all_ends date_from date_to cutoff rows))
