-- ===== src/Ledger/Overtaken.antt =====
-- Documents that have passed a stage and do not come back to it, and those that can no longer be made
-- pending.
use vestibule.Prelude.{
  ℕ, ◌+◌, ◌≤◌, ◌<◌, String, Option, none, some, err, true, ◌≡◌, refl, subst, ◌≢◌, arith, ◌⊎◌, inl,
  inr,
}
use vestibule.Dict.{lookup, All-lookup}
use vestibule.Ledger.Model.{
  Status, pending, analyzing, chunking, embedding, indexing, indexed, failed, needs_review,
  archived, LedgerRow, LedgerTransitionInvalid, transition_invalid,
}
use vestibule.Ledger.Store.{InMemoryLedgerStore, transition, is_benign_concurrent_loss}
use vestibule.Ledger.Legal.{Edge}
use vestibule.Ledger.Invariant.{IsRow, IsValid}
use vestibule.Ledger.Triage.{Later, Forward, IsOnPath, triage_forward}
use vestibule.Ledger.Triaged.{triaged, move_to, barred, triaged-passes}

on_path : {s t : Status} → Forward s t → IsOnPath t
on_path Forward.analyze = tt
on_path Forward.chunk = tt
on_path Forward.embed = tt
on_path Forward.index = tt
on_path Forward.finish = tt

pub Later-IsOnPath : {t : Status} → Later pending t → IsOnPath t
Later-IsOnPath Later.here = tt
Later-IsOnPath (Later.then l f) = on_path f

-- Where the state machine lets a document come from to be pending.
into_pending :
    {a b : Status} → Edge a b → b ≡ pending → (a ≡ pending) ⊎ (a ≡ failed) ⊎ (a ≡ needs_review)
into_pending Edge.resume h = ground arith
into_pending Edge.requeue h = ground arith
into_pending (Edge.retry s l) h = inl h
into_pending (Edge.fail s l) h = ground arith
into_pending Edge.analyze h = ground arith
into_pending Edge.chunk h = ground arith
into_pending Edge.embed h = ground arith
into_pending Edge.index h = ground arith
into_pending Edge.finish h = ground arith
into_pending Edge.park h = ground arith
into_pending Edge.archive h = ground arith

pub overtaken_barred : (t : Status) → Later pending t → t ≢ pending → ¬ Edge t pending
overtaken_barred t l n e = elim (into_pending e refl) [
  | inl is_pending ↦ n is_pending
  | inr (inl is_failed) ↦ subst IsOnPath is_failed (Later-IsOnPath l)
  | inr (inr is_parked) ↦ subst IsOnPath is_parked (Later-IsOnPath l)
]

pub archived_barred : (t : Status) → t ≡ archived → ¬ Edge t pending
archived_barred t h e = ground (arith, into_pending e refl)

-- The place of a status on the path.
abbrev place : Status → ℕ
place pending = 0
place analyzing = 1
place chunking = 2
place embedding = 3
place indexing = 4
place indexed = 5
place _ = 6

forward-place : {s t : Status} → Forward s t → (place t ≡ place s + 1) × (place t < 6)
forward-place Forward.analyze = (refl, omega arith)
forward-place Forward.chunk = (refl, omega arith)
forward-place Forward.embed = (refl, omega arith)
forward-place Forward.index = (refl, omega arith)
forward-place Forward.finish = (refl, omega arith)

Later-place : {s t : Status} → place s < 6 → Later s t → (place s ≤ place t) × (place t < 6)
Later-place h Later.here = (omega arith, h)
Later-place h (Later.then l f) = omega (arith, Later-place h l, forward-place f)

edge-place : {s t : Status} → Edge s t → place s < 6 → place s ≤ place t
edge-place Edge.analyze h = omega arith
edge-place Edge.chunk h = omega arith
edge-place Edge.embed h = omega arith
edge-place Edge.index h = omega arith
edge-place Edge.finish h = omega arith
edge-place (Edge.fail s l) h = omega arith
edge-place Edge.park h = omega arith
edge-place Edge.resume h = omega arith
edge-place Edge.requeue h = omega arith
edge-place Edge.archive h = omega arith
edge-place (Edge.retry s l) h = omega arith

-- No document comes back to a stage that it has passed.
passed_barred : {at next t : Status} → Forward at next → Later next t → ¬ Edge t at
passed_barred f l e = omega (
  arith,
  forward-place f,
  Later-place (forward-place f).1 l,
  edge-place e (Later-place (forward-place f).1 l).1,
)

pub Later-back : {at next t : Status} → Forward at next → Later next t → Later at t
Later-back f Later.here = Later.then Later.here f
Later-back f (Later.then l g) = Later.then (Later-back f l) g

forward-IsOnPath : {s t : Status} → Forward s t → IsOnPath s
forward-IsOnPath Forward.analyze = tt
forward-IsOnPath Forward.chunk = tt
forward-IsOnPath Forward.embed = tt
forward-IsOnPath Forward.index = tt
forward-IsOnPath Forward.finish = tt

module _ (doc_id : String) (s : InMemoryLedgerStore) (row : LedgerRow) (valid : IsValid s)
    (found : lookup doc_id s.rows ≡ some row) {at next : Status} (step : Forward at next)
    (later : Later next row.status) where
  staged : row.stage ≡ row.status
  staged = (All-lookup IsRow doc_id row s.rows valid.rows_hold found).staged

  -- A stage's call for another attempt, when the document has passed it.
  pub retry_refused :
      (code message : Option String)
      → (e : LedgerTransitionInvalid) × (transition doc_id (move_to at code message) s
          ≡ (err (transition_invalid e), s))
        × (is_benign_concurrent_loss e.observed_row at at ≡ some true)
  retry_refused code message =
      let (e, refused, observed) =
        barred doc_id at code message s row valid found (passed_barred step later) in
      (
        e,
        refused,
        rw observed
            ((triage_forward row at staged (forward-IsOnPath step)).1 (Later-back step later)),
      )

  -- And the same under the triage: the call goes on.
  pub triaged_passes_by :
      (code message : Option String) → triaged doc_id (move_to at code message) s ≡ (none, s)
  triaged_passes_by code message =
      triaged-passes doc_id at code message s row valid found (passed_barred step later)
        ((triage_forward row at staged (forward-IsOnPath step)).1 (Later-back step later))
