-- ===== src/Provisioning/Model.antt =====
-- src/vestibule/provisioning/model.py. The registry only carries templates, so `T` is any type of them.
-- A `datetime` is a number of microseconds.
use vestibule.Prelude.{
  ℕ, String, ◌≡◌, refl, true, Option, ℤ, ℤ_discrete, ◌==◌, ◌↔◌, decision, arith, ℕ_discrete,
  string_discrete, pair_discrete, option_discrete, read_discrete,
}

pub data ProvisioningCode : Type 0 where
  index_template_not_found index_template_invalid index_schema_drift index_provision_failed
        index_retired index_auto_create_disabled index_provision_timeout index_provision_conflict
        index_registry_unavailable index_provisioner_unavailable
        index_provisioner_dependency_missing :
      ProvisioningCode

pub record ProvisioningError : Type 0 where
  pub index_name : String
  pub reason : String
  pub error_code : ProvisioningCode

pub data RegistryStatus : Type 0 where
  provisioning ready failed retired : RegistryStatus

abbrev pub status_rank : RegistryStatus → ℕ
status_rank provisioning = 0
status_rank ready = 1
status_rank failed = 2
status_rank retired = 3

pub status_iff : (s t : RegistryStatus) → ((status_rank s == status_rank t) ≡ true) ↔ (s ≡ t)
status_iff s t = ground arith

unfoldable pub RegistryStatus-discrete : Discrete RegistryStatus
unfolding decision
RegistryStatus-discrete s t = decision (status_rank s == status_rank t) (status_iff s t)

pub record IndexRegistryEntry (T : Type 0) : Type 0 where
  pub index_name : String
  pub vertical : String
  pub scenario_id : String
  pub template_id : String
  pub template_version : String
  pub dimensions : ℤ
  pub metric : String
  pub embedding_model : String
  pub status : RegistryStatus
  pub created_at : ℕ
  pub last_verified_at : Option ℕ
  pub document_count : Option ℕ
  pub claim_token : Option String
  pub claimed_at : Option ℕ
  pub last_error_message : Option String
  pub resolved_template : Option T

abbrev Fields : Type 0 → Type 0
Fields T =
    String
    × (String
        × (String
            × (String
                × (String
                    × (ℤ
                        × (String
                            × (String
                                × (RegistryStatus
                                    × (ℕ
                                        × (Option ℕ
                                            × (Option ℕ
                                                × (Option String
                                                    × (Option ℕ
                                                        × (Option String × Option T))))))))))))))

module _ {T : Type 0} where
  fields : IndexRegistryEntry T → Fields T
  fields e = (
    e.index_name,
    (
      e.vertical,
      (
        e.scenario_id,
        (
          e.template_id,
          (
            e.template_version,
            (
              e.dimensions,
              (
                e.metric,
                (
                  e.embedding_model,
                  (
                    e.status,
                    (
                      e.created_at,
                      (
                        e.last_verified_at,
                        (
                          e.document_count,
                          (
                            e.claim_token,
                            (e.claimed_at, (e.last_error_message, e.resolved_template)),
                          ),
                        ),
                      ),
                    ),
                  ),
                ),
              ),
            ),
          ),
        ),
      ),
    ),
  )

  back : Fields T → IndexRegistryEntry T
  back (a, (b, (c, (d, (e, (f, (g, (h, (i, (j, (k, (l, (m, (n, (o, p))))))))))))))) = record {
    index_name = a;
    vertical = b;
    scenario_id = c;
    template_id = d;
    template_version = e;
    dimensions = f;
    metric = g;
    embedding_model = h;
    status = i;
    created_at = j;
    last_verified_at = k;
    document_count = l;
    claim_token = m;
    claimed_at = n;
    last_error_message = o;
    resolved_template = p;
  }

  back-fields : (e : IndexRegistryEntry T) → back (fields e) ≡ e
  unfolding back fields
  back-fields e = refl

  -- `==` of two entries, given that of templates
  unfoldable pub entry_discrete : Discrete T → Discrete (IndexRegistryEntry T)
  unfolding fields back back-fields
  entry_discrete same_template =
      let text = string_discrete in
      let time = option_discrete ℕ_discrete in
      let maybe = option_discrete string_discrete in
      read_discrete fields back back-fields (
        pair_discrete text (
          pair_discrete text (
            pair_discrete text (
              pair_discrete text (
                pair_discrete text (
                  pair_discrete ℤ_discrete (
                    pair_discrete text (
                      pair_discrete text (
                        pair_discrete RegistryStatus-discrete (
                          pair_discrete ℕ_discrete (
                            pair_discrete time (
                              pair_discrete time (
                                pair_discrete maybe (
                                  pair_discrete time (
                                    pair_discrete maybe
                                      (option_discrete same_template))))))))))))))))
