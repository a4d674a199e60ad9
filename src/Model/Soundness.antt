-- ===== src/Model/Soundness.antt =====
-- The discovered states of pipeline/domain_v2_model.py against the step relation of Model.Reach.

use mathlib.Core.Path.{subst}
use formalspecgen.Domain.{DomainSpec}
use formalspecgen.Model.Atomic.{initial_state}
use formalspecgen.Model.Closure.{Explored, continue-eq-ok, traverse-Explored}
use formalspecgen.Model.Evaluate.{Error}
use formalspecgen.Model.Explore.{continue, enter, finish, traverse}
use formalspecgen.Model.Frontier.{Frontier, discover}
use formalspecgen.Model.Growth.{Covered, discover-Grows}
use formalspecgen.Model.Reach.{Reach, next, start}
use formalspecgen.Model.Safe.{IsSafe, checks-IsSafe}
use formalspecgen.Model.Same.{Agree, Agree-refl, Agree-sym, Agree-trans, same_state-Agree}
use formalspecgen.Model.Simulate.{IsClosed, Step-Agree}
use formalspecgen.Model.State.{State, check_bounds, check_invariants}
use formalspecgen.Prelude.{
  Bool-cases, In, [], arith, inl, inr, length, refl, some, sym, ℕ, ◌<◌, ◌==◌, ◌≡◌,
}
use formalspecgen.Result.{>>=-eq-ok, Result, err, ok, ok_injective}

pub enter-eq-ok :
    (spec : DomainSpec) (f g : Frontier)
    → enter spec f ≡ ok g
    → IsSafe spec (initial_state spec).fields × (discover (initial_state spec) f ≡ ok g)
unfolding enter
enter-eq-ok spec f g h =
    let (_, bounded, rest) = >>=-eq-ok (check_bounds spec _ "Init") _ h in
    let (_, kept, found) = >>=-eq-ok (check_invariants spec _ "Init") _ rest in
    (checks-IsSafe spec _ "Init" bounded kept, found)

pub finish-eq-ok :
    (r : Result Error Frontier) (counts : ℕ × ℕ)
    → finish r ≡ ok counts
    → (f : Frontier) × (r ≡ ok f)
      × (0 < f.transitions)
      × (counts ≡ (length f.discovered, f.transitions))
unfolding finish
finish-eq-ok (err e) counts h = cc
finish-eq-ok (ok f) counts h = elim (Bool-cases (f.transitions == 0)) [
  | inl idle_run ↦ absurd (let r = rw idle_run at h in cc r)
  | inr moved_on ↦ (f, refl, ground arith, sym (ok_injective (let r = rw moved_on at h in r)))
]

module _ (spec : DomainSpec) (closed : IsClosed spec) where
  -- A reachable state agrees with a discovered one.
  pub Reach-discovered :
      (f : Frontier)
      → Explored spec f
      → f.queue ≡ []
      → Covered spec (initial_state spec) f
      → {s : State} → Reach spec s
      → (d : State) × In d f.discovered × Agree spec s d
  Reach-discovered f e empty first = go
    where
      agreed : (t : State) → Covered spec t f → (d : State) × In d f.discovered × Agree spec t d
      agreed t (d, m, inl is_t, safe) = (d, m, subst (λ x. Agree spec x d) is_t (Agree-refl spec d))
      agreed t (d, m, inr same, safe) =
          (d, m, Agree-sym spec d t (same_state-Agree spec d t (e.safe d m) safe same))

      go : {s : State} → Reach spec s → (d : State) × In d f.discovered × Agree spec s d
      go start = agreed (initial_state spec) first
      go (next {s} {t} r st) =
          let (d, m, same) = go r in
          let (w, st', same') = Step-Agree spec closed s d same t st in
          elim (e.closed d m) [
            | inl waits ↦ elim (subst (In d) empty waits) [ ]
            | inr covers ↦
                let (d', m', same'') = agreed w (covers w st') in
                (d', m', Agree-trans spec t w d' same' same'')
          ]

  -- What the entry and the loop leave, when nothing was raised.
  pub run-Explored :
      (fuel : ℕ) (new f : Frontier)
      → new.queue ≡ []
      → new.discovered ≡ []
      → continue (traverse fuel spec) (enter spec new) ≡ some (ok f)
      → Explored spec f × (f.queue ≡ []) × Covered spec (initial_state spec) f
  run-Explored fuel new f no_queue nothing h =
      let (g, entered, run) = continue-eq-ok (traverse fuel spec) (enter spec new) h in
      let (safe, found) = enter-eq-ok spec new g entered in
      let (grows, covered) = discover-Grows spec (initial_state spec) new g safe found in
      let known : Explored spec g = record {
        safe = grows.safe (λ d m. elim (subst (In d) nothing m) [ ]);
        closed = λ d m. elim (grows.fresh d m) [
          | inl old ↦ elim (subst (In d) nothing old) [ ]
          | inr queued ↦ inl queued
        ];
        known = grows.listed (λ d m. elim (subst (In d) no_queue m) [ ]);
      } in
      let (done, empty, keeps) = traverse-Explored spec fuel g f known run in
      (done, empty, let (d, m, e, ok_state) = covered in (d, keeps d m, e, ok_state))
