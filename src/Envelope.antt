-- ===== src/Envelope.antt =====
-- src/vestibule/envelope/model.py: the validation that pydantic runs on an `ArrivalEnvelope`, and
-- `build_envelope`. The types of the fields are met by typing, and JSON is left out.
pub mod Laws
mod Tests
use vestibule.Prelude.{
  ℕ, String, ◌⧺◌, Bool, true, false, not, List, [], ◌∷◌, ◌++◌, Option, none, some, if◌then◌else◌,
  ite, Outcome, ok, err, string_discrete,
}
use vestibule.Identity.{IdentityInvalid, codes, match_hex, is_empty, derive_doc_id}
use vestibule.Vertical.Model.{ArrivalEnvelope, TrustTier}

-- `EnvelopeValidationError`: the fields in error, each with its reason.
pub record EnvelopeValidationError : Type 0 where
  pub field_errors : List (String × String)

-- `_wrap_identity_error`
abbrev pub wrap_identity_error : IdentityInvalid → EnvelopeValidationError
wrap_identity_error e = record { field_errors = (e.field_name, e.reason) ∷ [] }

-- A field's error, when its validator raises `ValueError`.
unfoldable pub field_error : Bool → String → String → List (String × String)
field_error true field reason = (field, "Value error, " ⧺ reason) ∷ []
field_error false field reason = []

-- The validators of the fields, in the order of the fields.
unfoldable pub field_errors_of : ArrivalEnvelope → List (String × String)
field_errors_of e =
    field_error (is_empty e.source) "source" "must be non-empty"
    ++ field_error (is_empty e.blob_path) "blob_path" "must be non-empty"
    ++ field_error (not (match_hex 64 (codes e.content_hash))) "content_hash"
        "content_hash must be 64 lowercase hex characters"

-- What a producer gives, with the time that stands in for a missing `received_at`.
pub record Arrival : Type 0 where
  pub source : String
  pub blob_path : String
  pub content_hash : String
  pub trust_tier : TrustTier
  pub allowed_groups : Option (List String)
  pub vertical : Option String
  pub scenario_id : Option String
  pub received_at : Option ℕ

abbrev pub or_default {ℓ} : {A : Type ℓ} → Option A → A → A
or_default none d = d
or_default (some a) d = a

module _ (sha256_hex : String → String) where
  unfoldable pub compute_doc_id : String → String → Outcome IdentityInvalid String
  compute_doc_id source blob_path = derive_doc_id sha256_hex source blob_path

  -- `_verify_doc_id` once the id is computed; the validators of the fields have seen to it that it can be
  unfoldable pub verify_doc_id :
      ArrivalEnvelope
      → Outcome IdentityInvalid String
      → Outcome EnvelopeValidationError ArrivalEnvelope
  verify_doc_id e (err x) = err (wrap_identity_error x)
  verify_doc_id e (ok expected) = ite (string_discrete e.doc_id expected) (ok e) (
      err (record {
        field_errors =
            (
              "__root__",
              "Value error, doc_id does not match sha256(source + blob_path); expected " ⧺ expected,
            )
            ∷ [];
      }))

  -- The model's validator runs when no field is in error.
  unfoldable pub validated : ArrivalEnvelope → Outcome EnvelopeValidationError ArrivalEnvelope
  validated e = elim (field_errors_of e) [
    | [] ↦ verify_doc_id e (compute_doc_id e.source e.blob_path)
    | x ∷ xs ↦ err (record { field_errors = x ∷ xs })
  ]

  -- `build_envelope` once the id is computed
  unfoldable pub build_with :
      Arrival
      → (now : ℕ) → Outcome IdentityInvalid String
      → Outcome EnvelopeValidationError ArrivalEnvelope
  build_with a now (err x) = err (wrap_identity_error x)
  build_with a now (ok doc_id) = validated (record {
    doc_id = doc_id;
    source = a.source;
    blob_path = a.blob_path;
    vertical = a.vertical;
    scenario_id = a.scenario_id;
    allowed_groups = or_default a.allowed_groups [];
    trust_tier = a.trust_tier;
    content_hash = a.content_hash;
    received_at = or_default a.received_at now;
  })

  unfoldable pub build_envelope :
      Arrival → (now : ℕ) → Outcome EnvelopeValidationError ArrivalEnvelope
  build_envelope a now = build_with a now (compute_doc_id a.source a.blob_path)
