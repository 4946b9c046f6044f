-- ===== src/TruthQuery/Plan.antt =====
-- truth_query.py: `parse_query`, on ASCII texts.
use Prim.Native.Char.{Char, code}
use Prim.Native.String.{[], ◌∷◌}
use zion_terminal.Base.{
  Bool, true, false, not, ◌&&◌, ◌||◌, List, [], ◌∷◌, ◌++◌, String, str_eq, ◌==◌, leb, ltb,
  if◌then◌else◌, keep, map, get_last?, Option, none, some,
}
use zion_terminal.Base.Result.{Result, ok, err}
use zion_terminal.Base.Sorting.{sorted}
use zion_terminal.Base.Upper.{is_prefix, upper, strip, strip_of, is_space}
use zion_terminal.Temporal.Instants.{size}

-- `QueryServiceError`, by its code
pub data QueryError : Type 0 where
  invalid_request query_not_supported release_not_available invalid_upstream_response
        world_not_certified world_not_found entity_not_found metric_not_available :
      QueryError

abbrev pub Queried : Type 0 → Type 0
Queried A = Result QueryError A

pub record QueryPlan : Type 0 where
  pub symbol : String
  pub metrics : List String

-- `_METRIC_ALIASES`
abbrev pub metric_aliases : List (String × String)
metric_aliases =
    ("revenue", "revenue")
    ∷ ("sales", "revenue")
    ∷ ("operating margin", "operating_margin")
    ∷ ("operating_margin", "operating_margin")
    ∷ ("margin", "operating_margin")
    ∷ ("last price", "last_price")
    ∷ ("last_price", "last_price")
    ∷ ("price", "last_price")
    ∷ []

-- The key `-len(phrase)`
abbrev pub longer_first : String × String → String × String → Bool
longer_first a b = leb (size b.0) (size a.0)

-- `part in whole`
unfoldable pub includes : String → String → Bool
unfolding is_prefix
includes part [] = is_prefix part []
includes part (c ∷ s) = is_prefix part (c ∷ s) || includes part s

-- `x in xs`
unfoldable pub listed : String → List String → Bool
listed x [] = false
listed x (y ∷ ys) = str_eq y x || listed x ys

-- The loop over the aliases.
unfoldable pub metrics_from : String → List String → List (String × String) → List String
unfolding upper includes listed
metrics_from text metrics [] = metrics
metrics_from text metrics (a ∷ rest) =
    metrics_from text
      (if includes (upper a.0) text && not (listed a.1 metrics)
        then metrics ++ a.1 ∷ []
        else metrics)
      rest

unfoldable pub metrics_of : String → List String
unfolding metrics_from sorted size
metrics_of text = metrics_from text [] (sorted longer_first metric_aliases)

unfoldable pub starts_word : String → Bool
starts_word [] = false
starts_word (c ∷ s) = not (is_space c)

unfoldable pub extend_first : Char → List String → List String
extend_first c [] = (c ∷ []) ∷ []
extend_first c (w ∷ ws) = (c ∷ w) ∷ ws

-- `s.split()`
unfoldable pub split_words : String → List String
unfolding starts_word extend_first
split_words [] = []
split_words (c ∷ s) =
    let rest = split_words s in
    if is_space c then rest else if starts_word s then extend_first c rest else (c ∷ []) ∷ rest

-- The characters of ".,?!:;()[]{}"
unfoldable pub is_punctuation : Char → Bool
is_punctuation c =
    let k = code c in
    k == 46
    || (k == 44
        || (k == 63
            || (k == 33
                || (k == 58
                    || (k == 59
                        || (k == 40
                            || (k == 41 || (k == 91 || (k == 93 || (k == 123 || k == 125))))))))))

unfoldable pub is_capital : Char → Bool
is_capital c = leb 65 (code c) && leb (code c) 90

-- `[A-Z0-9_-]`
unfoldable pub is_symbol_char : Char → Bool
unfolding is_capital
is_symbol_char c =
    is_capital c || ((leb 48 (code c) && leb (code c) 57) || (code c == 95 || code c == 45))

unfoldable pub every_char : (Char → Bool) → String → Bool
every_char p [] = true
every_char p (c ∷ s) = p c && every_char p s

-- `[A-Z][A-Z0-9_-]{1,9}`, on the whole token
unfoldable pub is_symbol : String → Bool
unfolding is_capital is_symbol_char every_char size
is_symbol [] = false
is_symbol (c ∷ s) =
    is_capital c && (every_char is_symbol_char s && (leb 1 (size s) && leb (size s) 9))

-- `_STOPWORDS`
abbrev pub stopwords : List String
stopwords =
    "GIVE" ∷ "ME" ∷ "WHAT" ∷ "ARE" ∷ "IS" ∷ "THE" ∷ "FOR" ∷ "AND" ∷ "OF" ∷ "SHOW" ∷ "REVENUE"
    ∷ "SALES" ∷ "OPERATING" ∷ "MARGIN" ∷ "LAST" ∷ "PRICE" ∷ "EBITDA" ∷ []

unfoldable pub is_candidate : String → Bool
unfolding is_symbol listed
is_candidate token = is_symbol token && not (listed token stopwords)

unfoldable pub candidates : String → List String
unfolding is_candidate split_words is_punctuation strip_of
candidates text = keep is_candidate (map (strip_of is_punctuation) (split_words text))

-- The plan of an upper-case text.
unfoldable pub plan_of : List String → Option String → Queried QueryPlan
plan_of [] symbol = err query_not_supported
plan_of (m ∷ ms) none = err query_not_supported
plan_of (m ∷ ms) (some symbol) = ok (record { symbol = symbol; metrics = m ∷ ms })

-- `parse_query`
unfoldable pub parse_query : String → Queried QueryPlan
unfolding strip upper size metrics_of candidates plan_of
parse_query text =
    if str_eq (strip text) "" || ltb 2000 (size text)
    then err invalid_request
    else plan_of (metrics_of (upper text)) (get_last? (candidates (upper text)))
