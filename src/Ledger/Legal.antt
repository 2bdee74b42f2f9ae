-- ===== src/Ledger/Legal.antt =====
-- The state machine as a relation, and `validate_transition` against it.
use vestibule.Prelude.{
  String, ◌≡◌, refl, ◌≢◌, ◌↔◌, Bool, true, ◌&&◌, not, Option, none, some, ok, arith,
}
use vestibule.Ledger.Model.{
  Status, pending, analyzing, chunking, embedding, indexing, indexed, failed, needs_review,
  archived, Status-discrete, LedgerRow,
}
use vestibule.Ledger.Store.{is_closed, is_legal, validate_transition}

-- A status from which the pipeline or a reviewer still moves the document.
abbrev pub IsLive : Status → Type 0
IsLive indexed = ⊥
IsLive failed = ⊥
IsLive archived = ⊥
IsLive _ = Unit

pub data Edge : Status → Status → Type 0 where
  analyze : Edge pending analyzing
  chunk : Edge analyzing chunking
  embed : Edge chunking embedding
  index : Edge embedding indexing
  finish : Edge indexing indexed
  fail : (s : Status) → IsLive s → Edge s failed
  park : Edge pending needs_review
  resume : Edge needs_review pending
  requeue : Edge failed pending
  archive : Edge failed archived
  retry : (s : Status) → IsLive s → Edge s s

-- The two tests of the source, on the statuses alone.
legal_test : Status → Status → Bool
unfolding is_closed is_legal
legal_test from to = not (is_closed from to) && is_legal from to

legal_test→Edge : (from to : Status) → legal_test from to ≡ true → Edge from to
unfolding legal_test Status-discrete
legal_test→Edge pending analyzing h = Edge.analyze
legal_test→Edge pending needs_review h = Edge.park
legal_test→Edge pending failed h = Edge.fail pending tt
legal_test→Edge pending pending h = Edge.retry pending tt
legal_test→Edge analyzing chunking h = Edge.chunk
legal_test→Edge analyzing failed h = Edge.fail analyzing tt
legal_test→Edge analyzing analyzing h = Edge.retry analyzing tt
legal_test→Edge chunking embedding h = Edge.embed
legal_test→Edge chunking failed h = Edge.fail chunking tt
legal_test→Edge chunking chunking h = Edge.retry chunking tt
legal_test→Edge embedding indexing h = Edge.index
legal_test→Edge embedding failed h = Edge.fail embedding tt
legal_test→Edge embedding embedding h = Edge.retry embedding tt
legal_test→Edge indexing indexed h = Edge.finish
legal_test→Edge indexing failed h = Edge.fail indexing tt
legal_test→Edge indexing indexing h = Edge.retry indexing tt
legal_test→Edge failed pending h = Edge.requeue
legal_test→Edge failed archived h = Edge.archive
legal_test→Edge needs_review pending h = Edge.resume
legal_test→Edge needs_review failed h = Edge.fail needs_review tt
legal_test→Edge needs_review needs_review h = Edge.retry needs_review tt
legal_test→Edge _ _ h = cc

live_fails : (s : Status) → IsLive s → legal_test s failed ≡ true
unfolding legal_test Status-discrete
live_fails indexed l = absurd l
live_fails failed l = absurd l
live_fails archived l = absurd l
live_fails _ l = refl

live_retries : (s : Status) → IsLive s → legal_test s s ≡ true
unfolding legal_test Status-discrete
live_retries indexed l = absurd l
live_retries failed l = absurd l
live_retries archived l = absurd l
live_retries _ l = refl

Edge→legal_test : {from to : Status} → Edge from to → legal_test from to ≡ true
unfolding legal_test Status-discrete
Edge→legal_test Edge.analyze = refl
Edge→legal_test Edge.chunk = refl
Edge→legal_test Edge.embed = refl
Edge→legal_test Edge.index = refl
Edge→legal_test Edge.finish = refl
Edge→legal_test (Edge.fail s l) = live_fails s l
Edge→legal_test Edge.park = refl
Edge→legal_test Edge.resume = refl
Edge→legal_test Edge.requeue = refl
Edge→legal_test Edge.archive = refl
Edge→legal_test (Edge.retry s l) = live_retries s l

-- What a request must satisfy.
pub record Allowed (row : LedgerRow) (to stage : Status) (error_code : Option String) : Type 0 where
  pub staged : stage ≡ to
  pub edge : Edge row.status to
  pub coded : to ≡ failed → error_code ≢ none

validate→Allowed :
    (doc_id : String) (row : LedgerRow) (to stage : Status) (error_code : Option String)
    → validate_transition doc_id (some row) to stage error_code ≡ ok tt
    → Allowed row to stage error_code
unfolding validate_transition
validate→Allowed doc_id row to stage error_code h = record {
  staged = ground arith;
  edge = legal_test→Edge row.status to (unfold legal_test in ground arith);
  coded = λ e n. ground arith;
}

Allowed→validate :
    (doc_id : String) (row : LedgerRow) (to stage : Status) (error_code : Option String)
    → Allowed row to stage error_code
    → validate_transition doc_id (some row) to stage error_code ≡ ok tt
unfolding validate_transition legal_test
Allowed→validate doc_id row to stage error_code a =
    ground (arith, Edge→legal_test a.edge, a.staged, a.coded)

-- A request passes `validate_transition` exactly when its stage is its target, the state machine
-- has an edge from the row's status to the target, and a move to `failed` carries an error code.
pub validate_transition_iff :
    (doc_id : String) (row : LedgerRow) (to stage : Status) (error_code : Option String)
    → (validate_transition doc_id (some row) to stage error_code ≡ ok tt)
      ↔ Allowed row to stage error_code
validate_transition_iff doc_id row to stage error_code = (
  validate→Allowed doc_id row to stage error_code,
  Allowed→validate doc_id row to stage error_code,
)
