-- ===== src/Vertical/Rules.antt =====
-- `_is_glob`, `_select_source_rule` and `_suggest_verticals` of src/vestibule/vertical/loader.py.
use Prim.Native.Char.{code}
use vestibule.Prelude.{
  String, Bool, true, false, ◌&&◌, ◌||◌, not, Option, none, some, List, [], ◌∷◌, ite, if◌then◌else◌,
  ◌==◌, string_discrete, ◌++◌,
}
use vestibule.Vertical.Model.{SourceMappingRule, Python}

abbrev pub equal_text : String → String → Bool
equal_text s t = ite (string_discrete s t) true false

-- `_is_glob`: one of `*`, `?` and `[` is in the pattern.
unfoldable pub is_glob : String → Bool
is_glob String.[] = false
is_glob (String.◌∷◌ c s) = (code c == b'*' || code c == b'?' || code c == b'[') || is_glob s

-- `[rule for rule in rules if test(rule)][0]`, as the loops of `_select_source_rule` find it.
unfoldable pub first :
    (SourceMappingRule → Bool) → List SourceMappingRule → Option SourceMappingRule
first test [] = none
first test (rule ∷ rules) = let later = first test rules in if test rule then some rule else later

abbrev pub matches_exactly : String → SourceMappingRule → Bool
matches_exactly source rule = not (is_glob rule.match) && equal_text rule.match source

abbrev pub matches_glob : Python → String → SourceMappingRule → Bool
matches_glob py source rule = is_glob rule.match && py.fnmatchcase source rule.match

-- `_select_source_rule`
unfoldable pub select_source_rule :
    Python → String → List SourceMappingRule → Option SourceMappingRule
unfolding first
select_source_rule py source rules = elim (first (matches_exactly source) rules) [
  | some rule ↦ some rule
  | none ↦ first (matches_glob py source) rules
]

-- `text.split(":", 1)[0]`
unfoldable pub before_colon : String → String
before_colon String.[] = String.[]
before_colon (String.◌∷◌ c s) =
    let rest = before_colon s in if code c == b':' then String.[] else String.◌∷◌ c rest

-- `text in texts`
abbrev pub is_in : String → List String → Bool
is_in t [] = false
is_in t (x ∷ xs) = ite (string_discrete x t) true (is_in t xs)

-- The loop of `_suggest_verticals`; `seen` holds what `suggestions` does.
unfoldable pub suggest : String → List SourceMappingRule → List String → List String
suggest prefix [] suggestions = suggestions
suggest prefix (rule ∷ rules) suggestions = suggest prefix rules (
    if equal_text (before_colon rule.match) prefix && not (is_in rule.vertical suggestions)
    then suggestions ++ rule.vertical ∷ []
    else suggestions)

-- `_suggest_verticals`
unfoldable pub suggest_verticals : String → List SourceMappingRule → List String
unfolding suggest before_colon
suggest_verticals source rules = suggest (before_colon source) rules []
