-- ===== src/Agentic/Store.antt =====
-- pipeline/agentic/state_store.py: the hash-chained events of a run and its one review file. The
-- directory of a run is a value; what was written stays when an exception is raised. The digest of an
-- event and of a review, and the text of a review, are parameters. Each operation runs under the lock
-- of the store.
use formalspecgen.Agentic.{AgentError, Goal, Receipt, RunRecord, fail, planned}
use formalspecgen.Agentic.Acceptance.{Review}
use formalspecgen.Prelude.{
  Bool, List, Option, String, [], false, if◌then◌else◌, event_files, length, next_exists, none,
  some, str_eq, suc, true, ℕ, ◌&&◌, ◌++◌, ◌+◌, ◌==◌, ◌∷◌,
}
use formalspecgen.Result.{Result, err, ok, require}

-- An event without its own digest.
pub record Event : Type 0 where
  pub sequence : ℕ
  pub previous_sha256 : Option String
  pub content : RunRecord

-- The events in the order of the numbers of their files, each as the text of its file is read back, and
-- the review file.
pub record Directory : Type 0 where
  pub events : List (Event × String)
  pub review : Option String

-- What the store calls, of the standard library: the digest of an event, the text of a review, the
-- digest and the size of a text, and whether `strip` leaves nothing of it.
pub record Codec : Type 0 where
  pub digest : Event → String
  pub encode : Review → String
  pub sha256 : String → String
  pub size : String → ℕ
  pub is_blank : String → Bool

-- `FileExistsError`, by its class: an exception that is no `AgentRunError`, and that nothing catches.
abbrev pub file_exists : AgentError
file_exists = fail "FileExistsError" "the file of the next event exists"

-- A computation on the directory.
abbrev pub M : Type 0 → Type 0
M A = Directory → Result AgentError A × Directory

infixl 5 ◌>>=◌ ◌>>◌
abbrev pub ◌>>=◌ : {A B : Type 0} → M A → (A → M B) → M B
◌>>=◌ m f d = let (r, d') = m d in elim r [ ok a ↦ f a d' | err e ↦ (err e, d') ]

abbrev pub ◌>>◌ : {A B : Type 0} → M A → M B → M B
m >> k = m >>= λ _. k

abbrev pub pure : {A : Type 0} → A → M A
pure a d = (ok a, d)

abbrev pub from : {A : Type 0} → Result AgentError A → M A
from r d = (r, d)

abbrev pub previous_eq : Option String → Option String → Bool
previous_eq none none = true
previous_eq (some s) (some t) = str_eq s t
previous_eq _ _ = false

module _ (codec : Codec) where
  -- The loop over the events: the number and the digest that the next one must carry.
  unfoldable pub check_chain :
      ℕ → Option String → List (Event × String) → Result AgentError (Unit {0})
  check_chain n previous [] = ok tt
  check_chain n previous ((e, observed) ∷ rest) =
      if (e.sequence == n)
        && (previous_eq e.previous_sha256 previous && str_eq observed (codec.digest e))
      then check_chain (suc n) (some observed) rest
      else err (fail "RUN_EVIDENCE_INVALID" "agent event chain is invalid")

  unfoldable pub last_of : Event × String → List (Event × String) → Event × String
  last_of e [] = e
  last_of e (f ∷ rest) = last_of f rest

  unfoldable pub load_events : List (Event × String) → Result AgentError RunRecord
  load_events [] = err (fail "RUN_NOT_FOUND" "agent run does not exist")
  load_events (e ∷ rest) =
      let checked = check_chain 1 none (e ∷ rest) in
      elim checked [ ok _ ↦ ok (last_of e rest).0.content | err e' ↦ err e' ]

  unfoldable pub load : M RunRecord
  load d = (load_events (event_files d.events), d)

  unfoldable pub last_digest : List (Event × String) → Option String
  last_digest [] = none
  last_digest (e ∷ rest) = some (last_of e rest).1

  unfoldable pub new_event : List (Event × String) → RunRecord → Event
  new_event events r = record {
    sequence = length events + 1;
    previous_sha256 = last_digest events;
    content = r;
  }

  -- `_append_unlocked`: `os.link` does not replace a file.
  unfoldable pub append : RunRecord → M RunRecord
  append r d =
      let e = new_event (event_files d.events) r in
      if next_exists d.events
      then (err file_exists, d)
      else (ok r, record d { events = d.events ++ (e, codec.digest e) ∷ [] })

  unfoldable pub authorize : RunRecord → String → Result AgentError (Unit {0})
  authorize r principal_id =
      require (str_eq r.principal_id principal_id)
        (fail "RUN_ACCESS_DENIED" "agent run belongs to another principal")

  unfoldable pub is_receipt_of : Receipt → Option String → Bool
  is_receipt_of receipt none = false
  is_receipt_of receipt (some content) =
      (receipt.size == codec.size content) && str_eq receipt.sha256 (codec.sha256 content)

  unfoldable pub validate_review : RunRecord → M (Unit {0})
  validate_review r d = elim r.review [
    | none ↦ (ok tt, d)
    | some receipt ↦ (
      require (is_receipt_of receipt d.review)
          (fail "REVIEW_EVIDENCE_INVALID" "terminal agent review integrity failed"),
      d,
    )
  ]

  unfoldable pub new_record : Goal → String → RunRecord
  new_record goal principal_id = record {
    run_id = goal.run_id;
    principal_id = principal_id;
    request_sha256 = goal.request_sha256;
    goal = goal;
    state = planned;
    active_action = none;
    actions = [];
    failure_count = 0;
    cancel_requested = false;
    unresolved_findings = [];
    review = none;
    request_satisfied = none;
    claim = none;
  }

  -- `get`
  unfoldable pub get : String → M RunRecord
  get principal_id = do r ← load; from (authorize r principal_id); validate_review r; pure r

  -- A run that exists is answered if it belongs to the principal and has the same goal.
  unfoldable pub reopen : Goal → String → RunRecord → M RunRecord
  reopen goal principal_id existing = do
    from (authorize existing principal_id)
    validate_review existing
    from (
        require (str_eq existing.request_sha256 goal.request_sha256)
          (fail "IDEMPOTENCY_CONFLICT" "run_id is already bound to a different goal"))
    pure existing

  unfoldable pub create_or_reopen : Goal → String → M RunRecord
  create_or_reopen goal principal_id d = elim (load_events (event_files d.events)) [
    | ok existing ↦ reopen goal principal_id existing d
    | err e ↦
        if str_eq e.code "RUN_NOT_FOUND"
        then append (new_record goal principal_id) d
        else (err e, d)
  ]

  -- `create`
  unfoldable pub create : Goal → String → M RunRecord
  create goal principal_id d =
      if codec.is_blank principal_id
      then (err (fail "RUN_ACCESS_DENIED" "agent principal is required"), d)
      else create_or_reopen goal principal_id d

  -- `update`: `mutate` may raise, and then nothing is appended.
  unfoldable pub update : String → (RunRecord → Result AgentError RunRecord) → M RunRecord
  update principal_id mutate = do
    r ← load
    from (authorize r principal_id)
    validate_review r
    changed ← from (mutate r)
    append changed

  -- `os.link` does not replace a file: a published review stays, and only the same text is accepted.
  unfoldable pub link_review : String → M (Unit {0})
  link_review encoded d = elim d.review [
    | none ↦ (ok tt, record d { review = some encoded })
    | some content ↦ (
      require (str_eq content encoded)
          (fail "REVIEW_ALREADY_PUBLISHED" "a different terminal review is already published"),
      d,
    )
  ]

  unfoldable pub publish_review : String → Review → M Receipt
  publish_review principal_id review = do
    r ← load
    from (authorize r principal_id)
    let encoded = codec.encode review
    link_review encoded
    pure (record { size = codec.size encoded; sha256 = codec.sha256 encoded })
