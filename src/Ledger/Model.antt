-- ===== src/Ledger/Model.antt =====
-- The rows of the ledger, its table of legal transitions, and the errors it raises.
-- A `datetime` is a number of microseconds.
use vestibule.Prelude.{
  ℕ, String, ◌≡◌, Bool, true, false, List, [], ◌∷◌, Option, ite, ◌==◌, ◌↔◌, decision, arith,
}
use vestibule.Identity.{IdentityInvalid}

pub data Status : Type 0 where
  pending analyzing chunking embedding indexing indexed failed needs_review archived : Status

abbrev pub status_value : Status → String
status_value pending = "pending"
status_value analyzing = "analyzing"
status_value chunking = "chunking"
status_value embedding = "embedding"
status_value indexing = "indexing"
status_value indexed = "indexed"
status_value failed = "failed"
status_value needs_review = "needs_review"
status_value archived = "archived"

abbrev pub rank : Status → ℕ
rank pending = 0
rank analyzing = 1
rank chunking = 2
rank embedding = 3
rank indexing = 4
rank indexed = 5
rank failed = 6
rank needs_review = 7
rank archived = 8

pub rank_iff : (s t : Status) → ((rank s == rank t) ≡ true) ↔ (s ≡ t)
rank_iff s t = ground arith

-- `s == t`
unfoldable pub Status-discrete : Discrete Status
unfolding decision
Status-discrete s t = decision (rank s == rank t) (rank_iff s t)

-- `s in xs`, for a literal set or tuple of statuses
abbrev pub contains : Status → List Status → Bool
contains s [] = false
contains s (x ∷ xs) = ite (Status-discrete s x) true (contains s xs)

-- `_TERMINAL_STATUSES`
abbrev pub terminal_statuses : List Status
terminal_statuses = indexed ∷ failed ∷ archived ∷ []

-- `_LEGAL_TRANSITIONS`
abbrev pub legal_transitions : Status → List Status
legal_transitions pending = analyzing ∷ failed ∷ needs_review ∷ []
legal_transitions analyzing = chunking ∷ failed ∷ []
legal_transitions chunking = embedding ∷ failed ∷ []
legal_transitions embedding = indexing ∷ failed ∷ []
legal_transitions indexing = indexed ∷ failed ∷ []
legal_transitions indexed = []
legal_transitions failed = pending ∷ archived ∷ []
legal_transitions needs_review = pending ∷ failed ∷ []
legal_transitions archived = []

-- `_FORWARD_ORDER`
abbrev pub forward_order : List Status
forward_order = pending ∷ analyzing ∷ chunking ∷ embedding ∷ indexing ∷ indexed ∷ []

pub record LedgerRow : Type 0 where
  pub doc_id : String
  pub status : Status
  pub stage : Status
  pub attempts : ℕ
  pub last_error_code : Option String
  pub last_error_message : Option String
  pub config_version : String
  pub ingested_at : ℕ
  pub updated_at : ℕ
  pub assigned_scenario_id : Option String

pub record EnvelopeSummary : Type 0 where
  pub config_version : String

-- The fields that a raised `LedgerTransitionInvalid` carries.
pub record LedgerTransitionInvalid : Type 0 where
  pub doc_id : String
  pub reason : String
  pub observed_row : Option LedgerRow
  pub attempted_to_status : Status
  pub attempted_stage : Status

-- What a ledger call raises; `value_error` is `tuple.index` of a missing item.
pub data LedgerError : Type 0 where
  identity_invalid : IdentityInvalid → LedgerError
  transition_invalid : LedgerTransitionInvalid → LedgerError
  assertion_failed : LedgerError
  value_error : LedgerError
