-- ===== src/Agentic/Execution.antt =====
-- What an execution of a planned action by pipeline/agentic/action_gateway.py calls, and what it returns.
use mathlib.Core.Path.{subst}
use mathlib.Core.List.{append-nil}
use formalspecgen.Agentic.{AgentError, Goal, Observation, PlannedAction}
use formalspecgen.Domain.References.{member, member-In}
use formalspecgen.Prelude.{
  Bool, Bool-cases, In, List, [], false, refl, sym, ◌++◌, ◌∷◌, Option, String, ap, eq_iff, inl, inr,
  leb, some, str_eq, true, ◌∙◌, ◌≡◌, ◌⊎◌,
}
use formalspecgen.Result.{err, ok, ok_injective, or_raise-eq-ok, require-eq-ok}
use formalspecgen.Agentic.Gateway.{
  Calls, Snapshot, bounded_result, called, check_answer, demand, execute, require_permission,
  run_workflow, structured, ◌>>=◌, ◌>>◌,
}

bind-eq-ok :
    {A B : Type 0} (m : Calls A) (f : A → Calls B) {b : B}
    → (m >>= f).0 ≡ ok b
    → (a : A) × (m.0 ≡ ok a) × ((f a).0 ≡ ok b)
bind-eq-ok (ok a, calls) f h = (a, refl, h)
bind-eq-ok (err e, calls) f h = cc h

-- No workflow is called, or one is, under some condition.
abbrev pub OnlyIf : Type 0 → List String → String → Type 0
OnlyIf P calls workflow = (calls ≡ []) ⊎ ((calls ≡ workflow ∷ []) × P)

-- What is behind a test is done only if the test passes.
demand-OnlyIf :
    {A : Type 0} {P : Type 0} (b : Bool) (e : AgentError) (k : Calls A) (workflow : String)
    → OnlyIf P k.1 workflow
    → OnlyIf ((b ≡ true) × P) (demand b e >> k).1 workflow
demand-OnlyIf true e (r, calls) workflow (inl none_called) = inl none_called
demand-OnlyIf true e (r, calls) workflow (inr (one, p)) = inr (one, (refl, p))
demand-OnlyIf false e k workflow h = inl refl

OnlyIf-map :
    {P Q : Type 0} (calls : List String) (workflow : String)
    → (P → Q)
    → OnlyIf P calls workflow
    → OnlyIf Q calls workflow
OnlyIf-map calls workflow f (inl none_called) = inl none_called
OnlyIf-map calls workflow f (inr (one, p)) = inr (one, f p)

-- A continuation that calls nothing adds nothing.
quiet-calls :
    {A B : Type 0} (m : Calls A) (f : A → Calls B) → ((a : A) → (f a).1 ≡ []) → (m >>= f).1 ≡ m.1
quiet-calls (ok a, calls) f quiet = ap (λ l. calls ++ l) (quiet a) ∙ append-nil calls
quiet-calls (err e, calls) f quiet = refl

module _ (permits : String → Bool) (world : Snapshot) where
  check_answer-calls :
      (goal : Goal) (answer : Option Observation) → (check_answer permits world goal answer).1 ≡ []
  unfolding check_answer bounded_result
  check_answer-calls goal answer = quiet-calls (structured answer) _ (λ result.
      quiet-calls (demand (str_eq world.behind goal.source_sha256) _)
        (λ _. bounded_result permits world result)
        (λ _.
          quiet-calls (demand (leb (world.encoded_size result) 2097152) _) (λ _. (ok result, []))
            (λ _. refl)))

  -- What a workflow is called under.
  abbrev pub IsPermitted : String → Type 0
  IsPermitted workflow =
      (workflow ≡ "inspect")
      ⊎ ((workflow ≡ "verify")
          × (permits "external_execution" ≡ true)
          × (permits "evidence_publication" ≡ true))

  run_workflow-calls :
      (workflow : String)
      → OnlyIf (IsPermitted workflow) (run_workflow permits world workflow).1 workflow
  unfolding run_workflow require_permission
  run_workflow-calls workflow = elim (Bool-cases (str_eq workflow "inspect")) [
    | inl is ↦
        let e = (eq_iff workflow "inspect").0 is in rw is (inr (ap (λ s. s ∷ []) (sym e), inl e))
    | inr no₁ ↦ elim (Bool-cases (str_eq workflow "verify")) [
      | inr no₂ ↦ rw (no₁, no₂) (inl refl)
      | inl is ↦
          let e = (eq_iff workflow "verify").0 is in
          elim (Bool-cases (permits "external_execution")) [
            | inr denied ↦ rw (no₁, is, denied) (inl refl)
            | inl executes ↦ elim (Bool-cases (permits "evidence_publication")) [
              | inr denied ↦ rw (no₁, is, executes, denied) (inl refl)
              | inl publishes ↦
                  rw (no₁, is, executes, publishes)
                    (inr (ap (λ s. s ∷ []) (sym e), inr (e, refl, refl)))
            ]
          ]
    ]
  ]

  -- What the executed workflow was, and what it was permitted.
  abbrev pub Executed : String → Observation → Type 0
  Executed workflow result =
      ((workflow ≡ "inspect") × (world.inspect ≡ some result))
      ⊎ ((workflow ≡ "verify")
          × (world.verify ≡ some result)
          × (permits "external_execution" ≡ true)
          × (permits "evidence_publication" ≡ true))

  run_workflow-Executed :
      (workflow : String) (answer : Option Observation) (result : Observation)
      → (run_workflow permits world workflow).0 ≡ ok answer
      → answer ≡ some result
      → Executed workflow result
  unfolding run_workflow require_permission
  run_workflow-Executed workflow answer result h e = elim (Bool-cases (str_eq workflow "inspect")) [
    | inl is ↦ let q = ok_injective (rw is at h) in inl ((eq_iff workflow "inspect").0 is, q ∙ e)
    | inr no₁ ↦ elim (Bool-cases (str_eq workflow "verify")) [
      | inl is ↦
          let q = rw (no₁, is) at h in
          let (_, a, rest) =
            bind-eq-ok (demand (permits "external_execution") _)
              (λ _.
                require_permission permits world "evidence_publication"
                >> called "verify" world.verify)
              q in
          let (_, b, done) =
            bind-eq-ok (demand (permits "evidence_publication") _)
              (λ _. called "verify" world.verify) rest in
          inr (
            (eq_iff workflow "verify").0 is,
            ok_injective done ∙ e,
            require-eq-ok _ _ a,
            require-eq-ok _ _ b,
          )
      | inr no₂ ↦ let q = rw (no₁, no₂) at h in cc q
    ]
  ]

  -- What an action is called under.
  pub record IsCleared (goal : Goal) (workflow : String) : Type 0 where
    pub planned : In workflow goal.permitted_workflows
    pub contained : world.inside ≡ true
    pub available : world.is_file ≡ true
    pub readable : permits "workspace_read" ≡ true
    pub approved : world.before ≡ goal.source_sha256
    pub permitted : IsPermitted workflow

  -- What an action calls, whether it returns or raises: no workflow, or its own one, once, and no other.
  -- It is called only if the goal permits it, the source stays inside the workspace, is a file and has
  -- the approved digest, reading the workspace is permitted, and it is the inspection, or a
  -- verification for which external execution and the publication of evidence are permitted.
  pub execute-calls :
      (goal : Goal) (action : PlannedAction)
      → OnlyIf
          (IsCleared goal action.workflow)
          (execute permits world goal action).1
          action.workflow
  unfolding execute require_permission
  execute-calls goal action =
      let ran =
        quiet-calls (run_workflow permits world action.workflow) (check_answer permits world goal)
          (check_answer-calls goal) in
      let behind_tests =
        demand-OnlyIf (member action.workflow goal.permitted_workflows) _ _ action.workflow (
          demand-OnlyIf world.inside _ _ action.workflow (
            demand-OnlyIf world.is_file _ _ action.workflow (
              demand-OnlyIf (permits "workspace_read") _ _ action.workflow (
                demand-OnlyIf (str_eq world.before goal.source_sha256) _ _ action.workflow (
                  subst (λ l. OnlyIf (IsPermitted action.workflow) l action.workflow) (sym ran)
                    (run_workflow-calls action.workflow)))))) in
      OnlyIf-map _ action.workflow
        (λ cleared.
          let (named, (inside, (is_file, (reads, (same, permitted))))) = cleared in
          record {
            planned = member-In _ _ named;
            contained = inside;
            available = is_file;
            readable = reads;
            approved = (eq_iff world.before goal.source_sha256).0 same;
            permitted = permitted;
          })
        behind_tests

  -- A result is returned only for a permitted workflow, with the right to read the workspace, for a
  -- source that has the approved digest before and behind the workflow. The result is that of the
  -- inspection, or that of a verification for which external execution and the publication of
  -- evidence are permitted.
  pub execute-Executed :
      (goal : Goal) (action : PlannedAction) (result : Observation)
      → (execute permits world goal action).0 ≡ ok result
      → In action.workflow goal.permitted_workflows
        × (permits "workspace_read" ≡ true)
        × (world.before ≡ goal.source_sha256)
        × (world.behind ≡ goal.source_sha256)
        × Executed action.workflow result
  unfolding execute require_permission check_answer bounded_result
  execute-Executed goal action result h =
      let (_, named, a) =
        bind-eq-ok (demand (member action.workflow goal.permitted_workflows) _) _ h in
      let (_, _, b) = bind-eq-ok (demand world.inside _) _ a in
      let (_, _, c) = bind-eq-ok (demand world.is_file _) _ b in
      let (_, reads, d) = bind-eq-ok (demand (permits "workspace_read") _) _ c in
      let (_, same, e) = bind-eq-ok (demand (str_eq world.before goal.source_sha256) _) _ d in
      let (answer, ran, f) =
        bind-eq-ok (run_workflow permits world action.workflow) (check_answer permits world goal)
          e in
      let (found, given, g) = bind-eq-ok (structured answer) _ f in
      let (_, same', i) = bind-eq-ok (demand (str_eq world.behind goal.source_sha256) _) _ g in
      let (_, _, done) =
        bind-eq-ok (demand (leb (world.encoded_size found) 2097152) _) (λ _. (ok found, [])) i in
      (
        member-In _ _ (require-eq-ok _ _ named),
        require-eq-ok _ _ reads,
        (eq_iff world.before goal.source_sha256).0 (require-eq-ok _ _ same),
        (eq_iff world.behind goal.source_sha256).0 (require-eq-ok _ _ same'),
        run_workflow-Executed action.workflow answer result ran
            (or_raise-eq-ok answer _ given ∙ ap some (ok_injective done)),
      )
