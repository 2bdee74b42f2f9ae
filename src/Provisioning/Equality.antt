-- ===== src/Provisioning/Equality.antt =====
-- `==` of index templates, as a decision.
use vestibule.Prelude.{
  ℕ, zero, suc, String, ◌≡◌, refl, ap, Bool, true, false, List, [], ◌∷◌, Option, ℤ, ℤ_discrete,
  ℕ_discrete, string_discrete, pair_discrete, option_discrete, read_discrete,
}
use vestibule.Provisioning.Template.{
  FieldType, key_field, text_field, vector_field, filterable_string, filterable_string_collection,
  filterable_datetime, retrievable_only, FieldSpec, IndexTemplate,
}

abbrev bit : Bool → ℕ
bit true = 1
bit false = 0

unbit : ℕ → Bool
unbit zero = false
unbit (suc n) = true

unbit-bit : (b : Bool) → unbit (bit b) ≡ b
unfolding unbit
unbit-bit true = refl
unbit-bit false = refl

unfoldable bool_discrete : Discrete Bool
unfolding unbit unbit-bit
bool_discrete = read_discrete bit unbit unbit-bit ℕ_discrete

abbrev field_rank : FieldType → ℕ
field_rank key_field = 0
field_rank text_field = 1
field_rank vector_field = 2
field_rank filterable_string = 3
field_rank filterable_string_collection = 4
field_rank filterable_datetime = 5
field_rank retrievable_only = 6

field_of : ℕ → FieldType
field_of zero = key_field
field_of (suc zero) = text_field
field_of (suc (suc zero)) = vector_field
field_of (suc (suc (suc zero))) = filterable_string
field_of (suc (suc (suc (suc zero)))) = filterable_string_collection
field_of (suc (suc (suc (suc (suc zero))))) = filterable_datetime
field_of _ = retrievable_only

field_of-field_rank : (t : FieldType) → field_of (field_rank t) ≡ t
unfolding field_of
field_of-field_rank key_field = refl
field_of-field_rank text_field = refl
field_of-field_rank vector_field = refl
field_of-field_rank filterable_string = refl
field_of-field_rank filterable_string_collection = refl
field_of-field_rank filterable_datetime = refl
field_of-field_rank retrievable_only = refl

module _ {A : Type 0} where
  head_or : A → List A → A
  head_or d [] = d
  head_or d (x ∷ xs) = x

  tail_of : List A → List A
  tail_of [] = []
  tail_of (x ∷ xs) = xs

  unfoldable list_discrete : Discrete A → Discrete (List A)
  unfolding head_or tail_of
  list_discrete same [] [] = yes refl
  list_discrete same [] (y ∷ ys) = no (λ e. cc)
  list_discrete same (x ∷ xs) [] = no (λ e. cc)
  list_discrete same (x ∷ xs) (y ∷ ys) = elim (same x y) [
    | no n ↦ no (λ e. n (ap (head_or x) e))
    | yes u ↦ elim (list_discrete same xs ys) [
      | no n ↦ no (λ e. n (ap tail_of e))
      | yes v ↦ yes (λ i. u i ∷ v i)
    ]
  ]

abbrev SpecFields : Type 0
SpecFields = String × (FieldType × Bool)

spec_fields : FieldSpec → SpecFields
spec_fields f = (f.name, (f.type, f.searchable))

spec_of : SpecFields → FieldSpec
spec_of (a, (b, c)) = record { name = a; type = b; searchable = c }

spec_of-spec_fields : (f : FieldSpec) → spec_of (spec_fields f) ≡ f
unfolding spec_of spec_fields
spec_of-spec_fields f = refl

abbrev TemplateFields : Type 0
TemplateFields =
    String × (String × (Option ℤ × (String × ((ℤ × (ℤ × ℤ)) × (List FieldSpec × (Bool × Bool))))))

template_fields : IndexTemplate → TemplateFields
template_fields t = (
  t.template_id,
  (
    t.template_version,
    (
      t.dimensions,
      (
        t.metric,
        (
          (t.hnsw.m, (t.hnsw.ef_construction, t.hnsw.ef_search)),
          (t.fields, (t.semantic_ranker_enabled, t.hybrid_enabled)),
        ),
      ),
    ),
  ),
)

template_of : TemplateFields → IndexTemplate
template_of (a, (b, (c, (d, ((e, (f, g)), (h, (i, j))))))) = record {
  template_id = a;
  template_version = b;
  dimensions = c;
  metric = d;
  hnsw = record { m = e; ef_construction = f; ef_search = g };
  fields = h;
  semantic_ranker_enabled = i;
  hybrid_enabled = j;
}

template_of-template_fields : (t : IndexTemplate) → template_of (template_fields t) ≡ t
unfolding template_of template_fields
template_of-template_fields t = refl

unfoldable pub template_discrete : Discrete IndexTemplate
unfolding field_of field_of-field_rank spec_fields spec_of spec_of-spec_fields template_fields
    template_of template_of-template_fields list_discrete bool_discrete
template_discrete =
    let field = read_discrete field_rank field_of field_of-field_rank ℕ_discrete in
    let spec =
      read_discrete spec_fields spec_of spec_of-spec_fields
        (pair_discrete string_discrete (pair_discrete field bool_discrete)) in
    let hnsw = pair_discrete ℤ_discrete (pair_discrete ℤ_discrete ℤ_discrete) in
    read_discrete template_fields template_of template_of-template_fields (
      pair_discrete string_discrete (
        pair_discrete string_discrete (
          pair_discrete (option_discrete ℤ_discrete) (
            pair_discrete string_discrete (
              pair_discrete hnsw (
                pair_discrete (list_discrete spec) (pair_discrete bool_discrete bool_discrete)))))))
