-- ===== src/Coordination/Leases.antt =====
-- The leases of pipeline/a2a_coordination.py: when a reconciliation can be claimed, if only attempts to
-- dispatch and requests for cancellation come between.
use mathlib.Core.Path.{subst}
use formalspecgen.Coordination.{
  DispatchState, Task, confirmed, in_flight, is_terminal, not_started, recovering, uncertain,
}
use formalspecgen.Coordination.Once.{claim-cases, dispatch-begun}
use formalspecgen.Coordination.Transitions.{
  cancellation, claim, claimable_in, dispatch, is_not_started, lease_expired, record_of, recovered,
  saved,
}
use formalspecgen.Prelude.{
  Bool-cases, Option, String, arith, false, inl, inr, none, not, refl, some, some_injective, sym,
  true, ℕ, ◌+◌, ◌||◌, ◌∙◌, ◌≡◌, ◌≤◌,
}
use formalspecgen.Result.{ok, ok_injective}

lease_expired-eq-ok :
    (lease : Option ℕ) (now : ℕ)
    → lease_expired lease now ≡ ok true
    → (deadline : ℕ) × (lease ≡ some deadline) × (deadline ≤ now)
unfolding lease_expired
lease_expired-eq-ok none now h = cc
lease_expired-eq-ok (some deadline) now h =
    (deadline, refl, (let q = ok_injective h in ground arith))

-- A task that is dispatched or recovered under a lease that runs until a deadline.
abbrev IsLeased : ℕ → DispatchState → Option ℕ → Option ℕ → Type 0
IsLeased deadline in_flight dispatch_lease recovery_lease = dispatch_lease ≡ some deadline
IsLeased deadline recovering dispatch_lease recovery_lease = recovery_lease ≡ some deadline
IsLeased deadline _ dispatch_lease recovery_lease = ⊥

abbrev IsLeasedTask : ℕ → Task → Type 0
IsLeasedTask deadline t = IsLeased deadline t.dispatch_state t.dispatch_lease t.recovery_lease

claimable_in-IsLeased :
    (deadline now : ℕ) (d : DispatchState) (first second : Option ℕ)
    → IsLeased deadline d first second
    → claimable_in d first second now ≡ ok true
    → deadline ≤ now
unfolding claimable_in
claimable_in-IsLeased deadline now not_started first second l h = elim l [ ]
claimable_in-IsLeased deadline now in_flight first second l h =
    let (until, at_, past) = lease_expired-eq-ok first now h in
    let e : deadline ≡ until = some_injective (sym l ∙ at_) in omega (arith, e, past)
claimable_in-IsLeased deadline now recovering first second l h =
    let (until, at_, past) = lease_expired-eq-ok second now h in
    let e : deadline ≡ until = some_injective (sym l ∙ at_) in omega (arith, e, past)
claimable_in-IsLeased deadline now uncertain first second l h = elim l [ ]
claimable_in-IsLeased deadline now confirmed first second l h = elim l [ ]

-- Attempts to dispatch a task again, and requests for its cancellation.
pub data QuietSteps (t : Task) : Task → Type 0 where
  quiet : QuietSteps t t
  redispatched :
      {u : Task} (attempt_id owner_id : String) (deadline : ℕ)
      → QuietSteps t u
      → QuietSteps t (record_of (dispatch attempt_id owner_id deadline u))
  withdrawn : {u : Task} → QuietSteps t u → QuietSteps t (record_of (cancellation u))

IsLeased-begun :
    (deadline : ℕ) (d : DispatchState) (first second : Option ℕ)
    → IsLeased deadline d first second
    → is_not_started d ≡ false
IsLeased-begun deadline not_started first second l = elim l [ ]
IsLeased-begun deadline in_flight first second l = refl
IsLeased-begun deadline recovering first second l = refl
IsLeased-begun deadline uncertain first second l = refl
IsLeased-begun deadline confirmed first second l = refl

QuietSteps-IsLeasedTask :
    (deadline : ℕ) {t u : Task} → QuietSteps t u → IsLeasedTask deadline t → IsLeasedTask deadline u
unfolding cancellation
QuietSteps-IsLeasedTask deadline quiet l = l
QuietSteps-IsLeasedTask deadline (redispatched {u} a o d steps) l =
    let ih = QuietSteps-IsLeasedTask deadline steps l in
    let begun = IsLeased-begun deadline u.dispatch_state u.dispatch_lease u.recovery_lease ih in
    subst (λ c. IsLeasedTask deadline (record_of c)) (sym (dispatch-begun a o d u begun)) ih
QuietSteps-IsLeasedTask deadline (withdrawn {u} steps) l =
    let ih = QuietSteps-IsLeasedTask deadline steps l in
    let begun = IsLeased-begun deadline u.dispatch_state u.dispatch_lease u.recovery_lease ih in
    elim (Bool-cases (is_terminal u.state)) [
      | inl over ↦ rw (over, cancellation) ih
      | inr live ↦ rw (live, begun, cancellation) ih
    ]

claim-IsLeasedTask :
    (derived_id owner_id : String) (now lease deadline : ℕ) (t : Task) {u : Task}
    → IsLeasedTask deadline t
    → claim derived_id owner_id now lease t ≡ ok (saved u)
    → deadline ≤ now
claim-IsLeasedTask derived_id owner_id now lease deadline t {u} l h =
    elim (claim-cases derived_id owner_id now lease t (saved u) h) [
      | inl same ↦ cc same
      | inr (made, free, live, unbound) ↦
          claimable_in-IsLeased deadline now t.dispatch_state t.dispatch_lease t.recovery_lease l
            free
    ]

-- Recoveries exclude each other for the time of the lease. If one claim of a reconciliation saves, only
-- attempts to dispatch and requests for cancellation follow, and then another claim saves, then the other
-- is made at the end of the lease of the first or later.
pub claims_apart :
    (derived_id owner_id other_id other_owner : String) (now lease later other_lease : ℕ)
    (t v : Task) {u w : Task}
    → claim derived_id owner_id now lease t ≡ ok (saved u)
    → QuietSteps u v
    → claim other_id other_owner later other_lease v ≡ ok (saved w)
    → now + lease ≤ later
unfolding recovered
claims_apart derived_id owner_id other_id other_owner now lease later other_lease t v {u} h steps
      k =
    elim (claim-cases derived_id owner_id now lease t (saved u) h) [
      | inl same ↦ cc same
      | inr (made, free, live, unbound) ↦
          let leased : IsLeasedTask (now + lease) u =
            subst (λ c. IsLeasedTask (now + lease) (record_of c)) made refl in
          claim-IsLeasedTask other_id other_owner later other_lease (now + lease) v
            (QuietSteps-IsLeasedTask (now + lease) steps leased) k
    ]

-- An undisturbed dispatch is not recovered before its deadline. If a dispatch saves, only further attempts
-- to dispatch and requests for cancellation follow, and neither a renewal nor an event of the worker, and
-- then a claim saves, then the claim is made at the deadline of the dispatch or later.
pub dispatch-claim_apart :
    (attempt_id owner_id derived_id other_owner : String) (deadline now lease : ℕ) (t v : Task)
    {u w : Task}
    → dispatch attempt_id owner_id deadline t ≡ saved u
    → QuietSteps u v
    → claim derived_id other_owner now lease v ≡ ok (saved w)
    → deadline ≤ now
unfolding dispatch
dispatch-claim_apart attempt_id owner_id derived_id other_owner deadline now lease t v {u} h steps
      k =
    elim (Bool-cases (is_terminal t.state || not (is_not_started t.dispatch_state))) [
      | inl closed ↦ let q = rw closed at h in cc q
      | inr fresh ↦
          let q = rw fresh at h in
          let leased : IsLeasedTask deadline u =
            subst (λ c. IsLeasedTask deadline (record_of c)) q refl in
          claim-IsLeasedTask derived_id other_owner now lease deadline v
            (QuietSteps-IsLeasedTask deadline steps leased) k
    ]
