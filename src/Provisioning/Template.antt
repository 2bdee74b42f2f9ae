-- ===== src/Provisioning/Template.antt =====
-- The index templates of src/vestibule/provisioning/model.py and their catalog in templates.py. Reading
-- the files is left out. `int_of` is `int` on a version text, where it parses.
use vestibule.Prelude.{
  ℕ, String, ◌⧺◌, Bool, true, false, List, [], ◌∷◌, Option, none, some, ℤ, pos, negsuc, ◌==◌,
  length, ite, keep, not, if◌then◌else◌, Outcome, ok, err, ◌>>=◌, ◌>>◌, raise_if, ℤ_discrete,
  string_discrete, Format,
}
use vestibule.Dict.{Dict, lookup}
use vestibule.Scenario.{Scenario}
use vestibule.Identity.{is_empty}
use vestibule.Provisioning.Model.{
  ProvisioningError, index_template_not_found, index_template_invalid,
}

pub data FieldType : Type 0 where
  key_field text_field vector_field filterable_string filterable_string_collection
        filterable_datetime retrievable_only :
      FieldType

pub record FieldSpec : Type 0 where
  pub name : String
  pub type : FieldType
  pub searchable : Bool

pub record HnswSettings : Type 0 where
  pub m : ℤ
  pub ef_construction : ℤ
  pub ef_search : ℤ

pub record IndexTemplate : Type 0 where
  pub template_id : String
  pub template_version : String
  pub dimensions : Option ℤ
  pub metric : String
  pub hnsw : HnswSettings
  pub fields : List FieldSpec
  pub semantic_ranker_enabled : Bool
  pub hybrid_enabled : Bool

-- `ProvisioningConfig`, with the times in microseconds
pub record ProvisioningConfig : Type 0 where
  pub default_template_id : String
  pub provisioning_stale_after : ℕ
  pub verification_interval : ℕ
  pub wait_for_provisioning_timeout : ℕ
  pub wait_poll_interval : ℕ
  pub auto_create : Bool

-- `f.type == "key"`
abbrev pub is_key : FieldSpec → Bool
is_key f = elim f.type [ key_field ↦ true | _ ↦ false ]

abbrev pub is_vector : FieldSpec → Bool
is_vector f = elim f.type [ vector_field ↦ true | _ ↦ false ]

abbrev pub has_name : String → List FieldSpec → Bool
has_name n [] = false
has_name n (f ∷ fs) = ite (string_discrete f.name n) true (has_name n fs)

-- `len(names) == len(set(names))`
unfoldable pub names_unique : List FieldSpec → Bool
names_unique [] = true
names_unique (f ∷ fs) = if has_name f.name fs then false else names_unique fs

module _ (int_of : String → Option ℤ) (py : Format) where
  unfoldable pub version_is_integer_string : String → Outcome String String
  version_is_integer_string value = elim (int_of value) [
    | none ↦ err (
        "template_version="
        ⧺ py.repr value
        ⧺ " must parse as a non-negative integer (Assumption A6)")
    | some (negsuc n) ↦ err ("template_version=" ⧺ py.repr value ⧺ " must be non-negative")
    | some (pos n) ↦ ok value
  ]

  unfoldable pub validate_field_shape : List FieldSpec → Outcome String (Unit {0})
  unfolding names_unique
  validate_field_shape specs = do
    raise_if (not (length (keep is_key specs) == 1)) (
        "IndexTemplate must declare exactly one field with type='key', found "
        ⧺ py.digits (pos (length (keep is_key specs))))
    raise_if (length (keep is_vector specs) == 0)
        "IndexTemplate must declare at least one field with type='vector'"
    raise_if (not (names_unique specs)) "IndexTemplate field names must be unique"

abbrev pub IndexTemplateStore : Type 0
IndexTemplateStore = Dict IndexTemplate

-- `a or b` of a text that may be missing
abbrev pub or_text : Option String → String → String
or_text none d = d
or_text (some s) d = if is_empty s then d else s

abbrev pub dimensions_or : Option ℤ → ℤ → ℤ
dimensions_or none d = d
dimensions_or (some n) d = n

-- `template.dimensions is not None and template.dimensions != dimensions`
abbrev pub is_at_odds : Option ℤ → ℤ → Bool
is_at_odds none d = false
is_at_odds (some n) d = ite (ℤ_discrete n d) false true

-- The template with the dimensions and the metric that a claim or a verification uses.
pub record Resolved : Type 0 where
  pub template : IndexTemplate
  pub dimensions : ℤ
  pub metric : String

module _ (py : Format) where
  unfoldable pub get_or_raise :
      String → IndexTemplateStore → Outcome ProvisioningError IndexTemplate
  get_or_raise template_id templates = elim (lookup template_id templates) [
    | some template ↦ ok template
    | none ↦ err (record {
      index_name = template_id;
      reason = "no index template registered for template_id=" ⧺ py.repr template_id;
      error_code = index_template_not_found;
    })
  ]

  -- `_resolve_template` once the template is found
  unfoldable pub resolve_against : Scenario → IndexTemplate → Outcome ProvisioningError Resolved
  resolve_against scenario template =
      if is_at_odds template.dimensions scenario.indexer.dimensions
      then err (record {
        index_name = scenario.index_name;
        reason =
            "template "
            ⧺ py.repr template.template_id
            ⧺ "'s explicit dimensions="
            ⧺ py.digits (dimensions_or template.dimensions scenario.indexer.dimensions)
            ⧺ " disagrees with scenario.indexer.dimensions="
            ⧺ py.digits scenario.indexer.dimensions;
        error_code = index_template_invalid;
      })
      else ok (record {
        template = template;
        dimensions = dimensions_or template.dimensions scenario.indexer.dimensions;
        metric = template.metric;
      })

  unfoldable pub resolve_template :
      ProvisioningConfig → IndexTemplateStore → Scenario → Outcome ProvisioningError Resolved
  unfolding get_or_raise resolve_against
  resolve_template config templates scenario =
      get_or_raise (or_text scenario.index_template_id config.default_template_id) templates
      >>= resolve_against scenario
