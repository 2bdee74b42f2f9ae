-- ===== src/Envelope/Laws.antt =====
-- What validation accepts, and what `build_envelope` makes.
use vestibule.Prelude.{
  ℕ, String, ◌⧺◌, ◌≡◌, ◌≢◌, refl, ◌∙◌, ◌↔◌, true, false, [], ◌∷◌, Option, none, some, Outcome, ok,
  err, arith, Bool-cases, inl, inr, ◌⊎◌,
}
use vestibule.Identity.Format.{HexText, match_hex_iff}
use vestibule.Identity.{codes, match_hex, is_empty, derive_doc_id, validate_non_empty_str}
use vestibule.Vertical.Model.{ArrivalEnvelope}
use vestibule.Envelope.{
  EnvelopeValidationError, field_error, field_errors_of, Arrival, or_default, compute_doc_id,
  verify_doc_id, validated, build_with, build_envelope,
}

or_default_elim :
    {A : Type 0} (o : Option A) (d : A) → or_default o d ≡ elim o [ none ↦ d | some a ↦ a ]
or_default_elim none d = refl
or_default_elim (some a) d = refl

abbrev pub fault : (field reason : String) → EnvelopeValidationError
fault field reason = record { field_errors = (field, reason) ∷ [] }

is_empty_iff : (s : String) → (is_empty s ≡ true) ↔ (s ≡ "")
is_empty_iff String.[] = (λ h. refl, λ h. refl)
is_empty_iff (String.◌∷◌ c s) = (λ h. cc, λ h. cc)

nonempty : (s : String) → is_empty s ≡ false → s ≢ ""
nonempty s h e = cc (h, (is_empty_iff s).1 e)

module _ (sha256_hex : String → String) where
  -- What an envelope must satisfy.
  abbrev pub IsSound : ArrivalEnvelope → Type 0
  IsSound e =
      (is_empty e.source ≡ false)
      × (is_empty e.blob_path ≡ false)
      × (match_hex 64 (codes e.content_hash) ≡ true)
      × (e.doc_id ≡ sha256_hex (e.source ⧺ e.blob_path))

  computes :
      (source blob_path : String)
      → is_empty source ≡ false
      → is_empty blob_path ≡ false
      → compute_doc_id sha256_hex source blob_path ≡ ok (sha256_hex (source ⧺ blob_path))
  unfolding compute_doc_id derive_doc_id validate_non_empty_str
  computes source blob_path s b = rw (s, b) refl

  verifies :
      (e : ArrivalEnvelope)
      → is_empty e.source ≡ false
      → is_empty e.blob_path ≡ false
      → (verify_doc_id sha256_hex e (compute_doc_id sha256_hex e.source e.blob_path) ≡ ok e)
        ↔ (e.doc_id ≡ sha256_hex (e.source ⧺ e.blob_path))
  unfolding verify_doc_id
  verifies e s b = rw (computes e.source e.blob_path s b) (ground arith)

  -- Validation accepts an envelope, as it is, exactly when its source and path are not empty, its content
  -- hash passes the format's test, and its id is the hash of its source and path.
  validated_iff : (e : ArrivalEnvelope) → (validated sha256_hex e ≡ ok e) ↔ IsSound e
  unfolding validated field_errors_of field_error
  validated_iff e = elim (Bool-cases (is_empty e.source)) [
    | inl s ↦ ground (arith, s)
    | inr s ↦ elim (Bool-cases (is_empty e.blob_path)) [
      | inl b ↦ ground (arith, s, b)
      | inr b ↦ elim (Bool-cases (match_hex 64 (codes e.content_hash))) [
        | inl m ↦ ground (arith, s, b, m, verifies e s b)
        | inr m ↦ ground (arith, s, b, m)
      ]
    ]
  ]

  abbrev pub made : Arrival → ℕ → ArrivalEnvelope
  made a now = record {
    doc_id = sha256_hex (a.source ⧺ a.blob_path);
    source = a.source;
    blob_path = a.blob_path;
    vertical = a.vertical;
    scenario_id = a.scenario_id;
    allowed_groups = elim (a.allowed_groups) [ none ↦ [] | some groups ↦ groups ];
    trust_tier = a.trust_tier;
    content_hash = a.content_hash;
    received_at = elim (a.received_at) [ none ↦ now | some t ↦ t ];
  }

  -- What `build_envelope` is to make of what a producer gives: the first fault, or the envelope, which
  -- then passes a consumer's validation as it is.
  abbrev pub IsBuilt : Arrival → ℕ → Outcome EnvelopeValidationError ArrivalEnvelope → Type 0
  IsBuilt a now r =
      ((a.source ≡ "") × (r ≡ err (fault "source" "empty string")))
      ⊎ ((a.source ≢ "") × (a.blob_path ≡ "") × (r ≡ err (fault "blob_path" "empty string")))
      ⊎ ((a.source ≢ "")
          × (a.blob_path ≢ "")
          × (¬ HexText 64 (codes a.content_hash))
          × (r
              ≡ err (
                  fault "content_hash"
                    "Value error, content_hash must be 64 lowercase hex characters")))
      ⊎ ((a.source ≢ "")
          × (a.blob_path ≢ "")
          × HexText 64 (codes a.content_hash)
          × (r ≡ ok (made a now))
          × (validated sha256_hex (made a now) ≡ ok (made a now)))

  builds :
      (a : Arrival) (now : ℕ)
      → is_empty a.source ≡ false
      → is_empty a.blob_path ≡ false
      → build_envelope sha256_hex a now ≡ validated sha256_hex (made a now)
  unfolding build_envelope build_with
  builds a now s b =
      rw
        (
          computes a.source a.blob_path s b,
          or_default_elim a.allowed_groups [],
          or_default_elim a.received_at now,
        )
        refl

  unnamed :
      (a : Arrival) (now : ℕ)
      → is_empty a.source ≡ true
      → build_envelope sha256_hex a now ≡ err (fault "source" "empty string")
  unfolding build_envelope build_with compute_doc_id derive_doc_id validate_non_empty_str
  unnamed a now s = rw s refl

  unplaced :
      (a : Arrival) (now : ℕ)
      → is_empty a.source ≡ false
      → is_empty a.blob_path ≡ true
      → build_envelope sha256_hex a now ≡ err (fault "blob_path" "empty string")
  unfolding build_envelope build_with compute_doc_id derive_doc_id validate_non_empty_str
  unplaced a now s b = rw (s, b) refl

  unhashed :
      (a : Arrival) (now : ℕ)
      → is_empty a.source ≡ false
      → is_empty a.blob_path ≡ false
      → match_hex 64 (codes a.content_hash) ≡ false
      → validated sha256_hex (made a now)
        ≡ err (fault "content_hash" "Value error, content_hash must be 64 lowercase hex characters")
  unfolding validated field_errors_of field_error
  unhashed a now s b m = ground (arith, s, b, m)

  -- `build_envelope` raises the validation error for an empty source, else for an empty path, else for a
  -- content hash that is not 64 lower-case hexadecimal digits with at most a newline after them, and the
  -- error names that one field. Otherwise it returns the envelope whose id is the hash of the source and
  -- the path, whose groups are those given or none, whose time of receipt is the one given or now, and
  -- whose other fields are the producer's; and a consumer's validation returns it as it is.
  pub build_envelope-IsBuilt :
      (a : Arrival) (now : ℕ) → IsBuilt a now (build_envelope sha256_hex a now)
  build_envelope-IsBuilt a now = elim (Bool-cases (is_empty a.source)) [
    | inl s ↦ inl ((is_empty_iff a.source).0 s, unnamed a now s)
    | inr s ↦ elim (Bool-cases (is_empty a.blob_path)) [
      | inl b ↦ inr (inl (nonempty a.source s, (is_empty_iff a.blob_path).0 b, unplaced a now s b))
      | inr b ↦ elim (Bool-cases (match_hex 64 (codes a.content_hash))) [
        | inl m ↦
            let accepted : validated sha256_hex (made a now) ≡ ok (made a now) =
              (validated_iff (made a now)).1 (s, b, m, refl) in
            inr (
              inr (
                inr (
                  nonempty a.source s,
                  nonempty a.blob_path b,
                  (match_hex_iff 64 (codes a.content_hash)).0 m,
                  builds a now s b ∙ accepted,
                  accepted,
                )))
        | inr m ↦ inr (
            inr (
              inl (
                nonempty a.source s,
                nonempty a.blob_path b,
                λ t. cc (m, (match_hex_iff 64 (codes a.content_hash)).1 t),
                builds a now s b ∙ unhashed a now s b m,
              )))
      ]
    ]
  ]
