-- ===== src/Errors.antt =====
-- src/vestibule/errors/registry.py: the catalog of error codes. The `isinstance` checks of
-- `register` are met by typing; the warning that `classify` logs is left out.
pub mod Laws
mod Tests
use vestibule.Prelude.{String, Bool, Option, none, some, List, Outcome, ok, err, if◌then◌else◌}
use vestibule.Dict.{Dict, lookup, insert, values}
use vestibule.Identity.{is_empty}

pub data Severity : Type 0 where
  permanent transient : Severity

pub record ErrorCode : Type 0 where
  pub code : String
  pub severity : Severity
  pub description : String

pub record ErrorCodeRegistrationInvalid : Type 0 where
  pub attempted_code : String
  pub reason : String
  pub existing : Option ErrorCode

abbrev pub ErrorRegistry : Type 0
ErrorRegistry = Dict ErrorCode

abbrev pub Registration : Type 0
Registration = Outcome ErrorCodeRegistrationInvalid ErrorCode × ErrorRegistry

-- `register` after the presence check
unfoldable pub register_new : String → Severity → String → ErrorRegistry → Registration
register_new code severity description reg =
    if is_empty code
    then (err (record { attempted_code = code; reason = "invalid code"; existing = none }), reg)
    else if is_empty description
    then (
      err (record { attempted_code = code; reason = "invalid description"; existing = none }),
      reg,
    )
    else let entry : ErrorCode = record {
      code = code;
      severity = severity;
      description = description;
    } in
      (ok entry, insert code entry reg)

unfoldable pub register : String → Severity → String → ErrorRegistry → Registration
unfolding register_new
register code severity description reg = elim (lookup code reg) [
  | some prior ↦ (
    err (record {
      attempted_code = code;
      reason = "duplicate registration";
      existing = some prior;
    }),
    reg,
  )
  | none ↦ register_new code severity description reg
]

unfoldable pub classify : String → ErrorRegistry → Severity
classify code reg = elim (lookup code reg) [ none ↦ transient | some entry ↦ entry.severity ]

unfoldable pub all_codes : ErrorRegistry → List ErrorCode
all_codes reg = values reg
