-- ===== src/Agentic/Termination.antt =====
-- The loop of pipeline/agentic/supervisor.py ends: every round that goes on completes one more of the
-- proposed actions, or, if its observation is not read back, leaves the next round a claimed action.
use mathlib.Core.Path.{subst}
use formalspecgen.Agentic.{
  AgentError, Goal, Observation, PlannedAction, RunRecord, cancelled, completed, failed,
  is_terminal,
}
use formalspecgen.Agentic.Acceptance.{action_succeeded}
use formalspecgen.Agentic.Bound.{Ends, bind-Ends, get-eq-ok, if-Ends, some-Ends, update-eq-ok}
use formalspecgen.Agentic.Planner.{next_action}
use formalspecgen.Agentic.Runs.{next_action-IsNext, next_action-idle}
use formalspecgen.Agentic.Store.{Codec, Directory, M, get, load_events, pure, ◌>>=◌}
use formalspecgen.Agentic.Supervisor.{
  advance, after_result, block, claim_action, finalize, is_active, mutate_claim, mutate_observe,
  perform, proceed, record_failure, record_observation, with_observation,
}
use formalspecgen.Prelude.{
  Bool, Bool-cases, List, Option, Option-cases, String, event_files, false, true, ◌⊎◌, [], ap,
  arith, get_elem?, if◌then◌else◌, inl, inr, is_some, length, length-append, none, refl, some, suc,
  sym, zero, ℕ, ◌+◌, ◌<◌, ◌∙◌, ◌∷◌, ◌≡◌, ◌≢◌, ◌≤◌,
}
use formalspecgen.Result.{Result, err, ok, ok_injective}

get_elem?-length :
    {A : Type 0} (xs : List A) (i : ℕ) (a : A) → get_elem? xs i ≡ some a → i < length xs
get_elem?-length [] i a h = cc
get_elem?-length (x ∷ xs) zero a h = omega arith
get_elem?-length (x ∷ xs) (suc i) a h = omega (arith, get_elem?-length xs i a h)

mutate_claim-actions :
    (action : PlannedAction) (r s : RunRecord)
    → mutate_claim action r ≡ ok s
    → s.actions ≡ r.actions
unfolding mutate_claim
mutate_claim-actions action r s h = elim (Bool-cases (is_some r.active_action)) [
  | inl busy ↦ let q = rw busy at h in cc q
  | inr still ↦ elim (Bool-cases (is_terminal r.state)) [
    | inl over ↦ let q = rw (still, over) at h in cc q
    | inr live ↦ ap (λ (x : RunRecord). x.actions) (sym (ok_injective (rw (still, live) at h)))
  ]
]

mutate_observe-actions :
    (action : PlannedAction) (result : Observation) (r s : RunRecord)
    → mutate_observe action result r ≡ ok s
    → length s.actions ≡ length r.actions + 1
unfolding mutate_observe with_observation
mutate_observe-actions action result r s h = elim (Bool-cases (is_active action r.active_action)) [
  | inr stale ↦ let q = rw stale at h in cc q
  | inl fresh ↦
      ap (λ (x : RunRecord). length x.actions) (sym (ok_injective (rw fresh at h)))
      ∙ length-append {0} r.actions (
          record {
            sequence = action.sequence;
            workflow = action.workflow;
            succeeded = action_succeeded action.workflow result;
            result = result;
          }
          ∷ [])
]

-- Only a claimed action is observed.
mutate_observe-active :
    (action : PlannedAction) (result : Observation) (r s : RunRecord)
    → mutate_observe action result r ≡ ok s
    → is_some r.active_action ≡ true
unfolding mutate_observe
mutate_observe-active action result r s h = elim (Option-cases r.active_action) [
  | inl nothing ↦ let q = rw (nothing, mutate_observe) at h in cc q
  | inr (active, found) ↦ rw found
]

module _ (codec : Codec) (permits : String → Bool)
    (execute : Goal → PlannedAction → Result AgentError Observation) (goal : Goal)
    (principal_id : String) where
  abbrev Loads : Directory → RunRecord → Type 0
  Loads d r = load_events codec (event_files d.events) ≡ ok r

  -- The rounds that are left, of a directory whose run loads, or the next round is the last.
  abbrev IsLeft : ℕ → Directory → Type 0
  IsLeft fuel d =
      (r : RunRecord)
      → Loads d r
      → (is_some r.active_action ≡ true) ⊎ (length goal.proposed_actions ≤ fuel + length r.actions)

  -- What a round leaves that goes on: one more completed action, or the claimed one, if the
  -- observation was not read back.
  abbrev GoesOnTo : ℕ → Directory → Type 0
  GoesOnTo n d =
      (s : RunRecord) × (Loads d s)
      × ((length s.actions ≡ n + 1) ⊎ (is_some s.active_action ≡ true))

  abbrev loop : ℕ → M (Option RunRecord)
  loop fuel = advance codec permits execute fuel goal principal_id

  after_result-Ends :
      (fuel n : ℕ) (action : PlannedAction) (result : Observation) (d : Directory)
      → ((r : RunRecord) → Loads d r → length r.actions ≡ n)
      → ((e : Directory) → GoesOnTo n e → Ends (loop fuel) e)
      → Ends (after_result codec permits execute (loop fuel) goal principal_id action result) d
  unfolding after_result record_observation
  after_result-Ends fuel n action result d count ends =
      bind-Ends (record_observation codec permits execute principal_id action result)
        (λ r.
          if r.cancel_requested
          then (finalize codec permits execute goal principal_id cancelled >>= λ x. pure (some x))
          else if action_succeeded action.workflow result
          then loop fuel
          else (finalize codec permits execute goal principal_id failed >>= λ x. pure (some x)))
        d
        (λ s e h.
          let (r, loads, changed, reads) =
            update-eq-ok codec principal_id (mutate_observe action result) d e s h in
          if-Ends s.cancel_requested _ _ e
            (some-Ends (finalize codec permits execute goal principal_id cancelled) e)
            (if-Ends (action_succeeded action.workflow result) _ _ e
              (ends e (elim reads [
                | inl new ↦ (
                  s,
                  new,
                  inl (
                      mutate_observe-actions action result r s changed
                      ∙ ap (λ k. k + 1) (count r loads)),
                )
                | inr old ↦ (r, old, inr (mutate_observe-active action result r s changed))
              ]))
              (some-Ends (finalize codec permits execute goal principal_id failed) e)))

  perform-Ends :
      (fuel : ℕ) (action : PlannedAction) (r : RunRecord) (d : Directory)
      → Loads d r
      → ((e : Directory) → GoesOnTo (length r.actions) e → Ends (loop fuel) e)
      → Ends (perform codec permits execute (loop fuel) goal principal_id action) d
  unfolding perform claim_action
  perform-Ends fuel action r d loads ends =
      bind-Ends (claim_action codec permits execute principal_id action)
        (λ _. elim (execute goal action) [
          | ok result ↦
              after_result codec permits execute (loop fuel) goal principal_id action result
          | err w ↦
              record_failure codec permits execute goal principal_id action w >>= λ x. pure (some x)
        ])
        d
        (λ s e h.
          let (r0, loads0, changed, reads) =
            update-eq-ok codec principal_id (mutate_claim action) d e s h in
          let is : length r0.actions ≡ length r.actions =
            ap (λ (x : RunRecord). length x.actions) (ok_injective (sym loads0 ∙ loads)) in
          by_reply (execute goal action) e (λ x l. elim reads [
            | inl new ↦
                ap (λ (y : RunRecord). length y.actions) (ok_injective (sym l ∙ new))
                ∙ ap length (mutate_claim-actions action r0 s changed)
                ∙ is
            | inr old ↦ ap (λ (y : RunRecord). length y.actions) (ok_injective (sym l ∙ old)) ∙ is
          ]))
    where
      by_reply :
          (reply : Result AgentError Observation) (e : Directory)
          → ((x : RunRecord) → Loads e x → length x.actions ≡ length r.actions)
          → Ends
              (elim reply as (λ _. M (Option RunRecord)) [
                | ok result ↦
                    after_result codec permits execute (loop fuel) goal principal_id action result
                | err w ↦ record_failure codec permits execute goal principal_id action w >>= λ x.
                    pure (some x)
              ])
              e
      by_reply (err w) e count =
          some-Ends (record_failure codec permits execute goal principal_id action w) e
      by_reply (ok result) e count =
          after_result-Ends fuel (length r.actions) action result e count ends

  proceed-Ends :
      (fuel : ℕ) (r : RunRecord) (d : Directory)
      → Loads d r
      → ((e : Directory)
          → is_some r.active_action ≡ false
          → length r.actions < length goal.proposed_actions
          → GoesOnTo (length r.actions) e
          → Ends (loop fuel) e)
      → Ends (proceed codec permits execute (loop fuel) goal principal_id r) d
  unfolding proceed
  proceed-Ends fuel r d loads ends = by_plan (next_action goal r) refl
    where
      by_plan :
          (plan : Result AgentError (Option PlannedAction))
          → next_action goal r ≡ plan
          → Ends
              (elim plan as (λ _. M (Option RunRecord)) [
                | err e ↦ block codec permits execute goal principal_id e.code e.message >>= λ x.
                    pure (some x)
                | ok none ↦ finalize codec permits execute goal principal_id completed >>= λ x.
                    pure (some x)
                | ok (some action) ↦
                    perform codec permits execute (loop fuel) goal principal_id action
              ])
              d
      by_plan (err e) h =
          some-Ends (block codec permits execute goal principal_id e.code e.message) d
      by_plan (ok none) h = some-Ends (finalize codec permits execute goal principal_id completed) d
      by_plan (ok (some action)) h =
          let (_, found, _) = next_action-IsNext goal r action h in
          let room =
            get_elem?-length goal.proposed_actions (length r.actions) action.workflow found in
          perform-Ends fuel action r d loads
            (λ e on. ends e (next_action-idle goal r action h) room on)

  round-Ends :
      (fuel : ℕ) (d : Directory)
      → ((r : RunRecord) (e : Directory)
          → Loads d r
          → is_some r.active_action ≡ false
          → length r.actions < length goal.proposed_actions
          → GoesOnTo (length r.actions) e
          → Ends (loop fuel) e)
      → Ends (loop (suc fuel)) d
  unfolding advance
  round-Ends fuel d ends =
      bind-Ends (get codec principal_id)
        (λ r.
          if is_terminal r.state
          then pure (some r)
          else if r.cancel_requested
          then (finalize codec permits execute goal principal_id cancelled >>= λ x. pure (some x))
          else proceed codec permits execute (loop fuel) goal principal_id r)
        d
        (λ r e h.
          let (loads, same) = get-eq-ok codec principal_id d e r h in
          if-Ends (is_terminal r.state) _ _ e (λ k. cc k)
            (if-Ends r.cancel_requested _ _ e
              (some-Ends (finalize codec permits execute goal principal_id cancelled) e)
              (proceed-Ends fuel r e (subst (λ (x : Directory). Loads x r) same loads)
                (λ f idle room on. ends r f loads idle room on))))

  still_left :
      (fuel : ℕ) (d : Directory) (r : RunRecord)
      → IsLeft fuel d
      → Loads d r
      → is_some r.active_action ≡ false
      → length goal.proposed_actions ≤ fuel + length r.actions
  still_left fuel d r left loads idle = elim (left r loads) [
    | inl busy ↦ absurd (let q = sym busy ∙ idle in cc q)
    | inr enough ↦ enough
  ]

  advance-Ends : (fuel : ℕ) (d : Directory) → IsLeft fuel d → Ends (loop (suc fuel)) d
  advance-Ends zero d left =
      round-Ends zero d (λ r e loads idle room on.
        absurd (omega (arith, still_left zero d r left loads idle, room)))
  advance-Ends (suc fuel) d left = round-Ends (suc fuel) d (λ r e loads idle room on.
      let (s, reads, made) = on in
      advance-Ends fuel e (λ again l.
        let same : again ≡ s = ok_injective (sym l ∙ reads) in
        elim made [
          | inl grown ↦ inr (
              let count = ap (λ (x : RunRecord). length x.actions) same in
              omega (arith, still_left (suc fuel) d r left loads idle, count, grown))
          | inr busy ↦ inl (ap (λ (x : RunRecord). is_some x.active_action) same ∙ busy)
        ]))

-- The loop of the supervisor ends. With one round more than there are proposed actions, for every run and
-- whatever the workflows answer, it does not run out of rounds: it returns a record, or raises an error.
pub advance_total :
    (codec : Codec) (permits : String → Bool)
    (execute : Goal → PlannedAction → Result AgentError Observation) (goal : Goal)
    (principal_id : String) (d : Directory)
    → (advance codec permits execute (length goal.proposed_actions + 1) goal principal_id d).0
      ≢ ok none
advance_total codec permits execute goal principal_id d =
    subst (λ n. Ends (advance codec permits execute n goal principal_id) d) (omega arith)
      (advance-Ends codec permits execute goal principal_id (length goal.proposed_actions) d
        (λ r h. inr (omega arith)))
