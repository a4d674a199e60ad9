-- ===== src/Agentic/Access.antt =====
-- Runs of pipeline/agentic/state_store.py that belong to another principal.
use formalspecgen.Agentic.{AgentError, Goal, RunRecord, fail}
use formalspecgen.Agentic.Acceptance.{Review}
use formalspecgen.Agentic.Store.{
  Codec, Directory, authorize, create, create_or_reopen, get, load, load_events, publish_review,
  reopen, update, ◌>>=◌,
}
use formalspecgen.Prelude.{
  Bool-cases, String, eq_iff, event_files, inl, inr, refl, str_eq, ◌≡◌, ◌≢◌,
}
use formalspecgen.Result.{Result, err, ok}

abbrev pub denied : AgentError
denied = fail "RUN_ACCESS_DENIED" "agent run belongs to another principal"

module _ (codec : Codec) (d : Directory) (r : RunRecord) (principal_id : String)
    (loads : load_events codec (event_files d.events) ≡ ok r)
    (foreign : r.principal_id ≢ principal_id) where
  authorize-denied : authorize codec r principal_id ≡ err denied
  unfolding authorize
  authorize-denied = elim (Bool-cases (str_eq r.principal_id principal_id)) [
    | inl same ↦ absurd (foreign ((eq_iff r.principal_id principal_id).0 same))
    | inr other ↦ rw other
  ]

  get-denied : get codec principal_id d ≡ (err denied, d)
  unfolding get load
  get-denied = rw (loads, authorize-denied, ◌>>=◌)

  update-denied :
      (mutate : RunRecord → Result AgentError RunRecord)
      → update codec principal_id mutate d ≡ (err denied, d)
  unfolding update load
  update-denied mutate = rw (loads, authorize-denied, ◌>>=◌)

  publish_review-denied :
      (review : Review) → publish_review codec principal_id review d ≡ (err denied, d)
  unfolding publish_review load
  publish_review-denied review = rw (loads, authorize-denied, ◌>>=◌)

  reopen-denied : (goal : Goal) → reopen codec goal principal_id r d ≡ (err denied, d)
  unfolding reopen
  reopen-denied goal = rw (authorize-denied, ◌>>=◌)

  create-denied :
      (goal : Goal)
      → (e : AgentError) × (create codec goal principal_id d ≡ (err e, d))
        × (e.code ≡ "RUN_ACCESS_DENIED")
  unfolding create create_or_reopen
  create-denied goal = elim (Bool-cases (codec.is_blank principal_id)) [
    | inl blank ↦ (fail "RUN_ACCESS_DENIED" "agent principal is required", rw blank, refl)
    | inr named ↦ (denied, rw (named, loads, create_or_reopen) (reopen-denied goal), refl)
  ]

-- A run that loads and belongs to another principal is neither read nor changed: reading it, updating
-- it, publishing its review and creating it again all fail with the code of a denied access, and the
-- directory is as before.
pub foreign_run_denied :
    (codec : Codec) (d : Directory) (r : RunRecord) (principal_id : String)
    (mutate : RunRecord → Result AgentError RunRecord) (review : Review) (goal : Goal)
    → load_events codec (event_files d.events) ≡ ok r
    → r.principal_id ≢ principal_id
    → (get codec principal_id d ≡ (err denied, d))
      × (update codec principal_id mutate d ≡ (err denied, d))
      × (publish_review codec principal_id review d ≡ (err denied, d))
      × ((e : AgentError) × (create codec goal principal_id d ≡ (err e, d))
          × (e.code ≡ "RUN_ACCESS_DENIED"))
foreign_run_denied codec d r principal_id mutate review goal loads foreign = (
  get-denied codec d r principal_id loads foreign,
  update-denied codec d r principal_id loads foreign mutate,
  publish_review-denied codec d r principal_id loads foreign review,
  create-denied codec d r principal_id loads foreign goal,
)
