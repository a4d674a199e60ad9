-- ===== src/Model/Frontier.antt =====
-- `_BoundedFrontier` of pipeline/domain_v2_model.py: the discovered states, the queue, and the
-- three budgets. A limit of the source that is negative is refused like zero.
use formalspecgen.Model.Evaluate.{
  Error, not_positive, states_exceeded, transitions_exceeded, work_exceeded,
}
use formalspecgen.Model.State.{State, fits, same_state}
use formalspecgen.Prelude.{
  Bool, Bool-cases, List, [], any, arith, if◌then◌else◌, inl, inr, leb, length, ltb, sym, true, ℕ,
  ◌++◌, ◌+◌, ◌<◌, ◌∷◌, ◌≡◌, ◌⊎◌,
}
use formalspecgen.Result.{Result, err, ok, ok_injective, require, ◌>>◌}

pub record Frontier : Type 0 where
  pub max_states : ℕ
  pub max_transitions : ℕ
  pub max_work_items : ℕ
  pub queue : List State
  pub discovered : List State
  pub transitions : ℕ
  pub work_items : ℕ

unfoldable pub new_frontier : ℕ → ℕ → ℕ → Result Error Frontier
new_frontier max_states max_transitions max_work_items = do
  require (ltb 0 max_states) (not_positive "max_states")
  require (ltb 0 max_transitions) (not_positive "max_transitions")
  require (ltb 0 max_work_items) (not_positive "max_work_items")
  ok (record {
    max_states = max_states;
    max_transitions = max_transitions;
    max_work_items = max_work_items;
    queue = [];
    discovered = [];
    transitions = 0;
    work_items = 0;
  })

-- `key in self.discovered`
unfoldable pub is_discovered : State → List State → Bool
is_discovered s known = any (λ d. same_state d s) known

unfoldable pub discover : State → Frontier → Result Error Frontier
discover s f =
    if is_discovered s f.discovered
    then ok f
    else if leb f.max_states (length f.discovered)
    then err states_exceeded
    else ok (record f { discovered = s ∷ f.discovered; queue = f.queue ++ s ∷ [] })

unfoldable pub step : Frontier → Result Error Frontier
step f =
    if leb f.max_work_items f.work_items
    then err work_exceeded
    else ok (record f { work_items = f.work_items + 1 })

unfoldable pub append : State → Frontier → Result Error Frontier
append s f =
    if leb f.max_transitions f.transitions
    then err transitions_exceeded
    else discover s (record f { transitions = f.transitions + 1 })

-- What each method did, when it raised nothing.
pub step-eq-ok :
    (f g : Frontier)
    → step f ≡ ok g
    → (f.work_items < f.max_work_items) × (g ≡ record f { work_items = f.work_items + 1 })
unfolding step
step-eq-ok f g h = elim (Bool-cases (leb f.max_work_items f.work_items)) [
  | inl over ↦ absurd (let r = rw over at h in cc r)
  | inr fits ↦ (ground arith, let r = rw fits at h in sym (ok_injective r))
]

-- A state that is new to the frontier is added to the set and to the end of the queue.
abbrev pub enqueued : State → Frontier → Frontier
enqueued s f = record f { discovered = s ∷ f.discovered; queue = f.queue ++ s ∷ [] }

pub discover-eq-ok :
    (s : State) (f g : Frontier)
    → discover s f ≡ ok g
    → ((is_discovered s f.discovered ≡ true) × (g ≡ f))
      ⊎ ((length f.discovered < f.max_states) × (g ≡ enqueued s f))
unfolding discover
discover-eq-ok s f g h = elim (Bool-cases (is_discovered s f.discovered)) [
  | inl known ↦ inl (known, let r = rw known at h in sym (ok_injective r))
  | inr new ↦
      let h' = rw new at h in
      elim (Bool-cases (leb f.max_states (length f.discovered))) [
        | inl over ↦ absurd (let r = rw over at h' in cc r)
        | inr fits ↦ inr (ground arith, let r = rw fits at h' in sym (ok_injective r))
      ]
]

abbrev pub counted : Frontier → Frontier
counted f = record f { transitions = f.transitions + 1 }

pub append-eq-ok :
    (s : State) (f g : Frontier)
    → append s f ≡ ok g
    → (f.transitions < f.max_transitions) × (discover s (counted f) ≡ ok g)
unfolding append
append-eq-ok s f g h = elim (Bool-cases (leb f.max_transitions f.transitions)) [
  | inl over ↦ absurd (let r = rw over at h in cc r)
  | inr fits ↦ (ground arith, let r = rw fits at h in r)
]
