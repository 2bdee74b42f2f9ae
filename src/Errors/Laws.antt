-- ===== src/Errors/Laws.antt =====
-- A registered code keeps its entry for good.
use vestibule.Prelude.{
  String, ◌≡◌, refl, sym, ◌⊎◌, inl, inr, Option, none, some, List, [], ◌∷◌, ◌++◌, ok, err, arith,
  Bool-cases, true, false,
}
use vestibule.Dict.{lookup, insert, lookup-insert}
use vestibule.Identity.{is_empty}
use vestibule.Errors.{
  Severity, ErrorCode, ErrorRegistry, register, register_new, Registration, classify,
}

-- One registration of a sequence.
pub record Entry : Type 0 where
  pub code : String
  pub severity : Severity
  pub description : String

unfoldable pub register_all : List Entry → ErrorRegistry → ErrorRegistry
register_all [] reg = reg
register_all (e ∷ es) reg = register_all es (register e.code e.severity e.description reg).1

insert_new :
    (k : String) (v : ErrorCode) (d : ErrorRegistry)
    → lookup k d ≡ none
    → insert k v d ≡ d ++ (k, v) ∷ []
unfolding insert lookup
insert_new k v [] h = refl
insert_new k v (e ∷ d) h = ground (arith, insert_new k v d)

-- What a registration may have done.
abbrev pub Registered : String → Severity → String → ErrorRegistry → Registration → Type 0
Registered code severity description reg (ok entry, reg') =
    (lookup code reg ≡ none)
    × (is_empty code ≡ false)
    × (is_empty description ≡ false)
    × (entry ≡ record { code = code; severity = severity; description = description })
    × (reg' ≡ reg ++ (code, entry) ∷ [])
Registered code severity description reg (err x, reg') =
    (reg' ≡ reg)
    × (x.attempted_code ≡ code)
    × (x.existing ≡ lookup code reg)
    × (lookup code reg ≡ none → (is_empty code ≡ true) ⊎ (is_empty description ≡ true))

-- A registration succeeds only for a new, non-empty code with a non-empty description, and then
-- appends its entry. Otherwise it raises, changes nothing and names the prior entry, if there is
-- one; if there is none, the code or the description is empty.
register-Registered :
    (code : String) (severity : Severity) (description : String) (reg : ErrorRegistry)
    → Registered code severity description reg (register code severity description reg)
unfolding register
register-Registered code severity description reg = by_entry (lookup code reg) refl
  where
    by_entry :
        (o : Option ErrorCode)
        → lookup code reg ≡ o
        → Registered code severity description reg (elim o [
          | some prior ↦ (
            err (record {
              attempted_code = code;
              reason = "duplicate registration";
              existing = some prior;
            }),
            reg,
          )
          | none ↦ register_new code severity description reg
        ])
    by_entry (some prior) h = (refl, refl, sym h, λ n. cc)
    by_entry none h = elim (Bool-cases (is_empty code)) [
      | inl bad ↦ rw bad (refl, refl, sym h, λ _. inl bad)
      | inr good ↦ elim (Bool-cases (is_empty description)) [
        | inl bad ↦ rw (good, bad) (refl, refl, sym h, λ _. inr bad)
        | inr fine ↦ rw (good, fine) (h, good, fine, refl, insert_new code _ reg h)
      ]
    ]

register-keeps :
    (k code : String) (severity : Severity) (description : String) (reg : ErrorRegistry)
    (entry : ErrorCode)
    → lookup k reg ≡ some entry
    → lookup k (register code severity description reg).1 ≡ some entry
unfolding register
register-keeps k code severity description reg entry h = ground (
  arith,
  lookup-insert k code (record { code = code; severity = severity; description = description }) reg,
)

-- Whatever is registered afterwards, a registered code keeps its entry and its severity.
classify-stable :
    (es : List Entry) (k : String) (reg : ErrorRegistry) (entry : ErrorCode)
    → lookup k reg ≡ some entry
    → (lookup k (register_all es reg) ≡ some entry)
      × (classify k (register_all es reg) ≡ entry.severity)
unfolding register_all classify
classify-stable [] k reg entry h = (h, ground arith)
classify-stable (e ∷ es) k reg entry h =
    classify-stable es k (register e.code e.severity e.description reg).1 entry
      (register-keeps k e.code e.severity e.description reg entry h)
