-- ===== src/Liveness.antt =====
-- `liveness_check` of pipeline/realtime.py: the declared transitions of a domain have no end outside the
-- ready states. The type of values, their equality,
-- None, and `repr(sorted(items))`, the key of a state, are
-- parameters.
use formalspecgen.Prelude.{
  Bool, Bool-cases, In, List, Option, String, [], all, any, any-In, any-false, ap, eq_iff, false,
  if◌then◌else◌, inl, inr, length, none, not, some, str_eq, suc, sym, true, zero, ℕ, ◌&&◌, ◌+◌,
  ◌||◌, ◌∙◌, ◌∷◌, ◌≡◌, ◌⊎◌,
}

-- An entry of a transition: missing, null or a state.
pub data Entry (S : Type 0) : Type 0 where
  unset : Entry S
  null : Entry S
  given : S → Entry S

-- `item.get(first, item.get(second))`
abbrev pub entry_or : {S : Type 0} → Entry S → Entry S → Option S
entry_or (given s) other = some s
entry_or null other = none
entry_or unset (given s) = some s
entry_or unset null = none
entry_or unset unset = none

pub record Transition (S : Type 0) : Type 0 where
  pub from_state : Entry S
  pub source : Entry S
  pub to_state : Entry S
  pub target : Entry S

-- A domain, as far as the check reads it; an empty mapping is false, as a missing one is.
pub record Graph (S : Type 0) : Type 0 where
  pub transitions : List (Transition S)
  pub ready_state : S
  pub initial : S

pub data LivenessVerdict : Type 0 where
  refused_for : String → LivenessVerdict
  liveness_proved : ℕ → ℕ → LivenessVerdict

unfoldable pub edges_of : {S : Type 0} → List (Transition S) → Option (List (S × S))
edges_of [] = some []
edges_of (t ∷ ts) =
    let rest = edges_of ts in
    elim (entry_or t.from_state t.source) [
      | none ↦ none
      | some s ↦ elim (entry_or t.to_state t.target) [
        | none ↦ none
        | some u ↦ elim rest [ none ↦ none | some es ↦ some ((s, u) ∷ es) ]
      ]
    ]

unfoldable pub member_text : String → List String → Bool
member_text s [] = false
member_text s (t ∷ ts) = str_eq s t || member_text s ts

-- The number of different texts.
unfoldable pub count_distinct : List String → ℕ
unfolding member_text
count_distinct [] = 0
count_distinct (s ∷ ss) =
    let rest = count_distinct ss in if member_text s ss then rest else rest + 1

module _ {V : Type 0} (same : V → V → Bool) (null_value : V)
    (key : List (String × V) → String) where
  abbrev pub GraphState : Type 0
  GraphState = List (String × V)

  abbrev pub Edges : Type 0
  Edges = List (GraphState × GraphState)

  -- `state.get(k) == v`: a key that is missing reads as None.
  unfoldable pub has_value : String → V → GraphState → Bool
  has_value k v [] = same null_value v
  has_value k v ((name, w) ∷ rest) = if str_eq name k then same w v else has_value k v rest

  unfoldable pub is_ready : GraphState → GraphState → Bool
  unfolding has_value
  is_ready ready state = all (λ (x : String × V). has_value x.0 x.1 state) ready

  -- `successors` has an entry for the state.
  unfoldable pub has_successor : Edges → GraphState → Bool
  has_successor edges state =
      any (λ (e : GraphState × GraphState). str_eq (key e.0) (key state)) edges

  unfoldable pub is_starving : GraphState → Edges → GraphState → Bool
  unfolding is_ready has_successor
  is_starving ready edges state = not (is_ready ready state) && not (has_successor edges state)

  abbrev pub keys_of : Edges → List String
  keys_of [] = []
  keys_of ((s, t) ∷ es) = key s ∷ key t ∷ keys_of es

  abbrev pub non_empty : GraphState → Bool
  non_empty [] = false
  non_empty (x ∷ xs) = true

  -- The ready state that is asked for, declared, or the initial one.
  abbrev pub chosen_ready : GraphState → Graph GraphState → GraphState
  chosen_ready asked g =
      if non_empty asked
      then asked
      else if non_empty g.ready_state
      then g.ready_state
      else g.initial

  unfoldable pub check_edges : GraphState → Edges → LivenessVerdict
  unfolding is_starving count_distinct
  check_edges ready edges =
      if any (λ (e : GraphState × GraphState). is_starving ready edges e.1) edges
      then refused_for "LIVENESS_VIOLATION"
      else liveness_proved (count_distinct (keys_of edges)) (length edges)

  unfoldable pub check_read : GraphState → Option Edges → LivenessVerdict
  unfolding check_edges
  check_read ready none = refused_for "transition_shape_unsupported"
  check_read ready (some edges) = check_edges ready edges

  unfoldable pub check_transitions : GraphState → List (Transition GraphState) → LivenessVerdict
  unfolding edges_of check_read
  check_transitions ready [] = refused_for "no_transitions"
  check_transitions ready (t ∷ ts) = check_read ready (edges_of (t ∷ ts))

  unfoldable pub liveness_check : GraphState → Graph GraphState → LivenessVerdict
  unfolding check_transitions
  liveness_check asked g = check_transitions (chosen_ready asked g) g.transitions

  -- From a state, steps along the edges lead to a ready state, or so many steps can be made, round a cycle
  -- too.
  abbrev pub CanGoOn : GraphState → Edges → ℕ → GraphState → Type 0
  CanGoOn ready edges zero state = Unit
  CanGoOn ready edges (suc n) state =
      (is_ready ready state ≡ true)
      ⊎ ((e : GraphState × GraphState) × In e edges
          × (key e.0 ≡ key state)
          × CanGoOn ready edges n e.1)

  check_edges-proved :
      (ready : GraphState) (edges : Edges) (states count : ℕ)
      → check_edges ready edges ≡ liveness_proved states count
      → any (λ (e : GraphState × GraphState). is_starving ready edges e.1) edges ≡ false
  unfolding check_edges
  check_edges-proved ready edges states count h =
      elim (Bool-cases (any (λ (e : GraphState × GraphState). is_starving ready edges e.1) edges)) [
        | inl starving ↦ let q = rw starving at h in cc q
        | inr live ↦ live
      ]

  check_edges-count :
      (ready : GraphState) (edges : Edges) (states count : ℕ)
      → check_edges ready edges ≡ liveness_proved states count
      → count ≡ length edges
  unfolding check_edges
  check_edges-count ready edges states count h =
      let q = rw (check_edges-proved ready edges states count h) at h in cc q

  check_transitions-edges :
      (ready : GraphState) (ts : List (Transition GraphState)) (edges : Edges) (states count : ℕ)
      → check_transitions ready ts ≡ liveness_proved states count
      → edges_of ts ≡ some edges
      → check_edges ready edges ≡ liveness_proved states count
  unfolding check_transitions check_read
  check_transitions-edges ready [] edges states count h read = cc h
  check_transitions-edges ready (t ∷ ts) edges states count h read =
      ap (check_read ready) (sym read) ∙ h

  not_starving-cases :
      (ready : GraphState) (edges : Edges) (state : GraphState)
      → is_starving ready edges state ≡ false
      → (is_ready ready state ≡ true) ⊎ (has_successor edges state ≡ true)
  unfolding is_starving
  not_starving-cases ready edges state h = elim (Bool-cases (is_ready ready state)) [
    | inl yes_ready ↦ inl yes_ready
    | inr waiting ↦ elim (Bool-cases (has_successor edges state)) [
      | inl going ↦ inr going
      | inr stuck ↦ let q = rw (waiting, stuck) at h in cc q
    ]
  ]

  check_edges-CanGoOn :
      (ready : GraphState) (edges : Edges) (states count n : ℕ) (e : GraphState × GraphState)
      → check_edges ready edges ≡ liveness_proved states count
      → In e edges
      → CanGoOn ready edges n e.1
  unfolding has_successor
  check_edges-CanGoOn ready edges states count zero e h m = tt
  check_edges-CanGoOn ready edges states count (suc n) e h m =
      let fine =
        any-false (λ (x : GraphState × GraphState). is_starving ready edges x.1) edges e
          (check_edges-proved ready edges states count h) m in
      elim (not_starving-cases ready edges e.1 fine) [
        | inl arrived ↦ inl arrived
        | inr going ↦
            let (f, f_in, same_key) =
              any-In (λ (x : GraphState × GraphState). str_eq (key x.0) (key e.1)) edges going in
            inr (
              f,
              f_in,
              (eq_iff (key f.0) (key e.1)).0 same_key,
              check_edges-CanGoOn ready edges states count n f h f_in,
            )
      ]

-- No run of the declared transitions comes to an end outside the ready states. If the check proves
-- liveness, then it has counted all transitions, and from the target of each of them, for any number of
-- steps, some run along the transitions comes to a ready state or makes that many steps. A run for ever
-- around a cycle of states that are not ready is such a run: that a ready state is reached is not shown.
pub liveness_check-CanGoOn :
    {V : Type 0} (same : V → V → Bool) (null_value : V) (key : List (String × V) → String)
    (asked : List (String × V)) (g : Graph (List (String × V)))
    (edges : List (List (String × V) × List (String × V))) (states count n : ℕ)
    (e : List (String × V) × List (String × V))
    → liveness_check same null_value key asked g ≡ liveness_proved states count
    → edges_of g.transitions ≡ some edges
    → In e edges
    → (count ≡ length edges)
      × CanGoOn same null_value key (chosen_ready same null_value key asked g) edges n e.1
unfolding liveness_check
liveness_check-CanGoOn same null_value key asked g edges states count n e h read m =
    let ready = chosen_ready same null_value key asked g in
    let checked =
      check_transitions-edges same null_value key ready g.transitions edges states count h read in
    (
      check_edges-count same null_value key ready edges states count checked,
      check_edges-CanGoOn same null_value key ready edges states count n e checked m,
    )
