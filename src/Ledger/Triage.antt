-- ===== src/Ledger/Triage.antt =====
-- `is_benign_concurrent_loss` against its documented reading.
use vestibule.Prelude.{◌≡◌, refl, ◌≢◌, ◌↔◌, Option, none, some, Bool, true, false, arith}
use vestibule.Ledger.Model.{
  Status, pending, analyzing, chunking, embedding, indexing, indexed, failed, needs_review,
  archived, Status-discrete, LedgerRow,
}
use vestibule.Ledger.Store.{triage, is_benign_concurrent_loss}

-- One step along the ordinary pipeline.
pub data Forward : Status → Status → Type 0 where
  analyze : Forward pending analyzing
  chunk : Forward analyzing chunking
  embed : Forward chunking embedding
  index : Forward embedding indexing
  finish : Forward indexing indexed

-- Any number of them.
pub data Later (s : Status) : Status → Type 0 where
  here : Later s s
  then : {t u : Status} → Later s t → Forward t u → Later s u

-- A status that the linear path has.
abbrev pub IsOnPath : Status → Type 0
IsOnPath failed = ⊥
IsOnPath needs_review = ⊥
IsOnPath archived = ⊥
IsOnPath _ = Unit

abbrev answer : Option Bool → Bool
answer none = false
answer (some b) = b

triage_answers : (observed to : Status) → triage observed to ≡ some (answer (triage observed to))
unfolding triage Status-discrete
triage_answers pending pending = refl
triage_answers pending _ = refl
triage_answers analyzing pending = refl
triage_answers analyzing _ = refl
triage_answers chunking pending = refl
triage_answers chunking _ = refl
triage_answers embedding pending = refl
triage_answers embedding _ = refl
triage_answers indexing pending = refl
triage_answers indexing _ = refl
triage_answers indexed pending = refl
triage_answers indexed _ = refl
triage_answers failed pending = refl
triage_answers failed _ = refl
triage_answers needs_review pending = refl
triage_answers needs_review _ = refl
triage_answers archived pending = refl
triage_answers archived _ = refl

-- The triage always answers: no call of `tuple.index` misses, whatever was observed and attempted.
pub triage_total :
    (observed : Option LedgerRow) (to stage : Status)
    → (b : Bool) × (is_benign_concurrent_loss observed to stage ≡ some b)
unfolding is_benign_concurrent_loss
triage_total none to stage = (false, refl)
triage_total (some row) to stage = elim (Status-discrete stage to) [
  | no other ↦ (false, ground arith)
  | yes same ↦ elim (Status-discrete row.status row.stage) [
    | no differs ↦ (false, ground arith)
    | yes mirrors ↦ (answer (triage row.status to), ground (arith, triage_answers row.status to))
  ]
]

triage→Later :
    (observed to : Status) → IsOnPath to → triage observed to ≡ some true → Later to observed
unfolding triage Status-discrete
triage→Later pending pending p h = Later.here
triage→Later analyzing pending p h = Later.then Later.here Forward.analyze
triage→Later chunking pending p h = Later.then (Later.then Later.here Forward.analyze) Forward.chunk
triage→Later embedding pending p h =
    Later.then (Later.then (Later.then Later.here Forward.analyze) Forward.chunk) Forward.embed
triage→Later indexing pending p h =
    Later.then
      (Later.then (Later.then (Later.then Later.here Forward.analyze) Forward.chunk) Forward.embed)
      Forward.index
triage→Later indexed pending p h =
    Later.then
      (Later.then
        (Later.then (Later.then (Later.then Later.here Forward.analyze) Forward.chunk)
          Forward.embed)
        Forward.index)
      Forward.finish
triage→Later analyzing analyzing p h = Later.here
triage→Later chunking analyzing p h = Later.then Later.here Forward.chunk
triage→Later embedding analyzing p h =
    Later.then (Later.then Later.here Forward.chunk) Forward.embed
triage→Later indexing analyzing p h =
    Later.then (Later.then (Later.then Later.here Forward.chunk) Forward.embed) Forward.index
triage→Later indexed analyzing p h =
    Later.then
      (Later.then (Later.then (Later.then Later.here Forward.chunk) Forward.embed) Forward.index)
      Forward.finish
triage→Later chunking chunking p h = Later.here
triage→Later embedding chunking p h = Later.then Later.here Forward.embed
triage→Later indexing chunking p h = Later.then (Later.then Later.here Forward.embed) Forward.index
triage→Later indexed chunking p h =
    Later.then (Later.then (Later.then Later.here Forward.embed) Forward.index) Forward.finish
triage→Later embedding embedding p h = Later.here
triage→Later indexing embedding p h = Later.then Later.here Forward.index
triage→Later indexed embedding p h = Later.then (Later.then Later.here Forward.index) Forward.finish
triage→Later indexing indexing p h = Later.here
triage→Later indexed indexing p h = Later.then Later.here Forward.finish
triage→Later indexed indexed p h = Later.here
triage→Later _ failed p h = absurd p
triage→Later _ needs_review p h = absurd p
triage→Later _ archived p h = absurd p
triage→Later _ _ p h = cc

triage_self : (to : Status) → IsOnPath to → triage to to ≡ some true
unfolding triage Status-discrete
triage_self failed p = absurd p
triage_self needs_review p = absurd p
triage_self archived p = absurd p
triage_self _ p = refl

triage_step :
    (to : Status) {s t : Status}
    → Forward s t
    → IsOnPath to
    → triage s to ≡ some true
    → triage t to ≡ some true
unfolding triage Status-discrete
triage_step pending Forward.analyze p h = refl
triage_step pending Forward.chunk p h = refl
triage_step pending Forward.embed p h = refl
triage_step pending Forward.index p h = refl
triage_step pending Forward.finish p h = refl
triage_step analyzing Forward.analyze p h = refl
triage_step analyzing Forward.chunk p h = refl
triage_step analyzing Forward.embed p h = refl
triage_step analyzing Forward.index p h = refl
triage_step analyzing Forward.finish p h = refl
triage_step chunking Forward.analyze p h = cc
triage_step chunking Forward.chunk p h = refl
triage_step chunking Forward.embed p h = refl
triage_step chunking Forward.index p h = refl
triage_step chunking Forward.finish p h = refl
triage_step embedding Forward.analyze p h = cc
triage_step embedding Forward.chunk p h = cc
triage_step embedding Forward.embed p h = refl
triage_step embedding Forward.index p h = refl
triage_step embedding Forward.finish p h = refl
triage_step indexing Forward.analyze p h = cc
triage_step indexing Forward.chunk p h = cc
triage_step indexing Forward.embed p h = cc
triage_step indexing Forward.index p h = refl
triage_step indexing Forward.finish p h = refl
triage_step indexed Forward.analyze p h = cc
triage_step indexed Forward.chunk p h = cc
triage_step indexed Forward.embed p h = cc
triage_step indexed Forward.index p h = cc
triage_step indexed Forward.finish p h = refl
triage_step failed f p h = absurd p
triage_step needs_review f p h = absurd p
triage_step archived f p h = absurd p

Later→triage : (to : Status) {s : Status} → IsOnPath to → Later to s → triage s to ≡ some true
Later→triage to p Later.here = triage_self to p
Later→triage to p (Later.then l f) = triage_step to f p (Later→triage to p l)

mirrored_triage :
    (row : LedgerRow) (to : Status)
    → row.stage ≡ row.status
    → is_benign_concurrent_loss (some row) to to ≡ triage row.status to
unfolding is_benign_concurrent_loss
mirrored_triage row to mirrored = ground arith

-- For a target on the linear path, and an observed row whose stage mirrors its status, a rejected
-- move is a benign loss exactly when the row already stands at the target or later on that path.
pub triage_forward :
    (row : LedgerRow) (to : Status)
    → row.stage ≡ row.status
    → IsOnPath to
    → (is_benign_concurrent_loss (some row) to to ≡ some true) ↔ Later to row.status
triage_forward row to mirrored on_path =
    rw (mirrored_triage row to mirrored)
      (triage→Later row.status to on_path, Later→triage to on_path)

triage→indexed : (s : Status) → triage s failed ≡ some true → s ≡ indexed
unfolding triage Status-discrete
triage→indexed indexed h = refl
triage→indexed _ h = cc

triage→archived : (s : Status) → triage s archived ≡ some true → s ≡ archived
unfolding triage Status-discrete
triage→archived archived h = refl
triage→archived _ h = cc

triage→left : (s : Status) → triage s needs_review ≡ some true → (s ≢ pending) × (s ≢ failed)
unfolding triage Status-discrete
triage→left pending h = cc
triage→left failed h = cc
triage→left _ h = (λ e. cc, λ e. cc)

left→triage : (s : Status) → (s ≢ pending) × (s ≢ failed) → triage s needs_review ≡ some true
unfolding triage Status-discrete
left→triage pending p = absurd (p.0 refl)
left→triage failed p = absurd (p.1 refl)
left→triage _ p = refl

indexed_triage : (triage indexed failed ≡ some true) × (triage archived archived ≡ some true)
unfolding triage Status-discrete
indexed_triage = (refl, refl)

-- For the three targets off the path: a failure is a benign loss exactly when the row is indexed,
-- a parking exactly when it is neither pending nor failed, and an archiving exactly when it is
-- archived.
pub triage_off_path :
    (row : LedgerRow)
    → row.stage ≡ row.status
    → ((is_benign_concurrent_loss (some row) failed failed ≡ some true) ↔ (row.status ≡ indexed))
      × ((is_benign_concurrent_loss (some row) needs_review needs_review ≡ some true)
          ↔ ((row.status ≢ pending) × (row.status ≢ failed)))
      × ((is_benign_concurrent_loss (some row) archived archived ≡ some true)
          ↔ (row.status ≡ archived))
triage_off_path row mirrored = (
  rw (mirrored_triage row failed mirrored) (triage→indexed row.status, λ e. rw e indexed_triage.0),
  rw (mirrored_triage row needs_review mirrored) (triage→left row.status, left→triage row.status),
  rw (mirrored_triage row archived mirrored)
      (triage→archived row.status, λ e. rw e indexed_triage.1),
)
