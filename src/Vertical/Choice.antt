-- ===== src/Vertical/Choice.antt =====
-- Which source mapping applies to a document, and which verticals are suggested for one that none
-- applies to.
use vestibule.Prelude.{
  String, ◌≡◌, refl, ◌↔◌, ◌⊎◌, inl, inr, Bool, true, false, Bool-cases, Option, none, some, List,
  [], ◌∷◌, ◌++◌, All, arith, not, ◌&&◌, if◌then◌else◌,
}
use vestibule.Vertical.Model.{SourceMappingRule, Python}
use vestibule.Vertical.Rules.{
  is_glob, first, matches_exactly, matches_glob, select_source_rule, before_colon, equal_text,
  is_in, suggest, suggest_verticals,
}

-- The rule names the source itself.
abbrev pub Exact : String → SourceMappingRule → Type 0
Exact source rule = (is_glob rule.match ≡ false) × (rule.match ≡ source)

-- The rule is a pattern that the source matches.
abbrev pub Pattern : Python → String → SourceMappingRule → Type 0
Pattern py source rule = (is_glob rule.match ≡ true) × (py.fnmatchcase source rule.match ≡ true)

-- The first of the rules with the property.
abbrev pub IsFirst :
    (SourceMappingRule → Type 0) → SourceMappingRule → List SourceMappingRule → Type 0
IsFirst P r rules =
    (before : List SourceMappingRule) × (after : List SourceMappingRule) × (rules
      ≡ before ++ r ∷ after)
    × All (λ x. ¬ P x) before
    × P r

abbrev pub Selected : Python → String → List SourceMappingRule → Option SourceMappingRule → Type 0
Selected py source rules none =
    All (λ r. ¬ Exact source r) rules × All (λ r. ¬ Pattern py source r) rules
Selected py source rules (some r) =
    IsFirst (Exact source) r rules
    ⊎ (All (λ x. ¬ Exact source x) rules × IsFirst (Pattern py source) r rules)

-- What `first` finds, for a test that decides `P`.
abbrev Found :
    (SourceMappingRule → Type 0) → List SourceMappingRule → Option SourceMappingRule → Type 0
Found P rules none = All (λ x. ¬ P x) rules
Found P rules (some r) = IsFirst P r rules

first-Found :
    (P : SourceMappingRule → Type 0) (test : SourceMappingRule → Bool)
    → ((x : SourceMappingRule) → (test x ≡ true) ↔ P x)
    → (rules : List SourceMappingRule) → Found P rules (first test rules)
unfolding first
first-Found P test decides [] = tt
first-Found P test decides (x ∷ xs) = elim (Bool-cases (test x)) [
  | inl yes_it_is ↦ rw yes_it_is ([], xs, refl, tt, (decides x).0 yes_it_is)
  | inr not_it ↦
      rw not_it (past (first test xs) (λ p. cc ((decides x).1 p)) (first-Found P test decides xs))
]
  where
    past : (o : Option SourceMappingRule) → ¬ P x → Found P xs o → Found P (x ∷ xs) o
    past none n found = (n, found)
    past (some r) n (before, after, split, none_before, holds) =
        (x ∷ before, after, cc, (n, none_before), holds)

exactly_iff :
    (source : String) (rule : SourceMappingRule)
    → (matches_exactly source rule ≡ true) ↔ Exact source rule
exactly_iff source rule = ground arith

glob_iff :
    (py : Python) (source : String) (rule : SourceMappingRule)
    → (matches_glob py source rule ≡ true) ↔ Pattern py source rule
glob_iff py source rule = ground arith

-- The rule chosen for a source is the first that names it exactly; if none does, it is the first
-- pattern that the source matches; and no rule is chosen only when no rule of either kind applies.
pub select_source_rule-Selected :
    (py : Python) (source : String) (rules : List SourceMappingRule)
    → Selected py source rules (select_source_rule py source rules)
unfolding select_source_rule
select_source_rule-Selected py source rules =
    by_exact (first (matches_exactly source) rules)
      (first-Found (Exact source) (matches_exactly source) (exactly_iff source) rules)
  where
    by_glob :
        (o : Option SourceMappingRule)
        → All (λ x. ¬ Exact source x) rules
        → Found (Pattern py source) rules o
        → Selected py source rules o
    by_glob none no_exact found = (no_exact, found)
    by_glob (some r) no_exact found = inr (no_exact, found)

    by_exact :
        (o : Option SourceMappingRule)
        → Found (Exact source) rules o
        → Selected py source rules
            (elim o [ some rule ↦ some rule | none ↦ first (matches_glob py source) rules ])
    by_exact (some r) found = inl found
    by_exact none no_exact =
        by_glob (first (matches_glob py source) rules) no_exact
          (first-Found (Pattern py source) (matches_glob py source) (glob_iff py source) rules)

-- A rule for the vertical `v` has this prefix before the first colon.
abbrev pub Hinted : String → String → List SourceMappingRule → Type 0
Hinted prefix v [] = ⊥
Hinted prefix v (r ∷ rules) =
    ((before_colon r.match ≡ prefix) × (r.vertical ≡ v)) ⊎ Hinted prefix v rules

abbrev pub IsDistinct : List String → Type 0
IsDistinct [] = Unit
IsDistinct (x ∷ xs) = (is_in x xs ≡ false) × IsDistinct xs

is_in-append :
    (v w : String) (xs : List String)
    → (is_in v (xs ++ w ∷ []) ≡ true) ↔ ((is_in v xs ≡ true) ⊎ (w ≡ v))
is_in-append v w [] = ground arith
is_in-append v w (x ∷ xs) = ground (arith, is_in-append v w xs)

append-IsDistinct :
    (w : String) (xs : List String) → is_in w xs ≡ false → IsDistinct xs → IsDistinct (xs ++ w ∷ [])
append-IsDistinct w [] n h = (refl, tt)
append-IsDistinct w (x ∷ xs) n h =
    ground (arith, append-IsDistinct w xs, is_in-append x w xs, Bool-cases (is_in x (xs ++ w ∷ [])))

-- The suggestions after one rule.
abbrev noted : String → SourceMappingRule → List String → List String
noted prefix r acc =
    if equal_text (before_colon r.match) prefix && not (is_in r.vertical acc)
    then acc ++ r.vertical ∷ []
    else acc

is_in-noted :
    (prefix v : String) (r : SourceMappingRule) (acc : List String)
    → (is_in v (noted prefix r acc) ≡ true)
      ↔ ((is_in v acc ≡ true) ⊎ ((before_colon r.match ≡ prefix) × (r.vertical ≡ v)))
is_in-noted prefix v r acc = ground (arith, is_in-append v r.vertical acc)

noted-IsDistinct :
    (prefix : String) (r : SourceMappingRule) (acc : List String)
    → IsDistinct acc
    → IsDistinct (noted prefix r acc)
noted-IsDistinct prefix r acc h = ground (arith, append-IsDistinct r.vertical acc)

suggest-hints :
    (prefix v : String) (rules : List SourceMappingRule) (acc : List String)
    → (is_in v (suggest prefix rules acc) ≡ true) ↔ ((is_in v acc ≡ true) ⊎ Hinted prefix v rules)
unfolding suggest
suggest-hints prefix v [] acc = ground arith
suggest-hints prefix v (r ∷ rules) acc =
    ground (arith, suggest-hints prefix v rules (noted prefix r acc), is_in-noted prefix v r acc)

suggest-IsDistinct :
    (prefix : String) (rules : List SourceMappingRule) (acc : List String)
    → IsDistinct acc
    → IsDistinct (suggest prefix rules acc)
unfolding suggest
suggest-IsDistinct prefix [] acc h = h
suggest-IsDistinct prefix (r ∷ rules) acc h =
    suggest-IsDistinct prefix rules _ (noted-IsDistinct prefix r acc h)

-- The suggestions for a source name no vertical twice, and they are the verticals of the rules
-- that agree with the source up to the first colon.
suggest_verticals-hints :
    (source : String) (rules : List SourceMappingRule)
    → IsDistinct (suggest_verticals source rules)
      × ((v : String)
          → (is_in v (suggest_verticals source rules) ≡ true)
            ↔ Hinted (before_colon source) v rules)
unfolding suggest_verticals
suggest_verticals-hints source rules = (
  suggest-IsDistinct (before_colon source) rules [] tt,
  λ v. ground (arith, suggest-hints (before_colon source) v rules []),
)
