-- ===== src/Coordination/Grants.antt =====
-- What the decisions of `A2ACoordinator` of pipeline/a2a_coordination.py guarantee.

use mathlib.Core.Path.{subst}
use formalspecgen.Coordination.{
  AuthorityGrant, WorkItem, WorkerProfile, WorkerResult, is_subset, limit_of, listed, option_eq,
  text_in,
}
use formalspecgen.Coordination.Authority.{
  Policy, affordable, authorize_item, candidates, check_file, check_result, check_worker,
  digest_or_none, entries, entry_of, expired, first_worker, is_candidate, validate_result,
}
use formalspecgen.Coordination.Create.{covered}
use formalspecgen.Coordination.Inclusion.{IsInScope, path_allowed-contained}
use formalspecgen.Coordination.Scope.{path_allowed, scope}
use formalspecgen.Prelude.{
  Bool, In, List, Option, String, [], all, and_true, ap, arith, eq_iff, false, none, not, refl,
  some, str_eq, sym, true, ℕ, ◌&&◌, ◌∙◌, ◌∷◌, ◌≡◌, ◌≤◌,
}
use formalspecgen.Result.{
  >>=-eq-ok, IsOk, each, each-In, ok, ok_injective, ok_unit, or_raise, or_raise-eq-ok, refuse,
  require, require-eq-ok,
}

abbrev pub IsNormal : List (List ℕ) → Type 0
IsNormal paths = (s : List ℕ) → In s paths → (raw : List ℕ) × (scope raw ≡ ok s)

-- Not above a ceiling, where there is one.
abbrev pub IsBelow : ℕ → Option ℕ → Type 0
IsBelow n none = Unit
IsBelow n (some m) = n ≤ m

-- What `check_worker` has found.
record IsGranted (item : WorkItem) (grant : AuthorityGrant) (worker : WorkerProfile) : Type 0 where
  granted_effects : is_subset item.requested_effects grant.effects ≡ true
  worker_effects : is_subset item.requested_effects worker.effects ≡ true
  granted_paths : all (covered grant.allowed_paths) item.allowed_paths ≡ true
  worker_paths : all (covered worker.allowed_paths) item.allowed_paths ≡ true
  budget : all (λ (b : String × ℕ). affordable grant worker b.0 b.1) item.resource_budget ≡ true

all-and :
    {A : Type 0} (p q : A → Bool) (xs : List A)
    → all (λ x. p x && q x) xs ≡ true
    → (all p xs ≡ true) × (all q xs ≡ true)
all-and p q [] h = (refl, refl)
all-and p q (x ∷ xs) h =
    let both = and_true {a = p x && q x} h in
    let first = and_true {a = p x} both.0 in
    let rest = all-and p q xs both.1 in (rw first.0 rest.0, rw first.1 rest.1)

check_worker-IsGranted :
    (item : WorkItem) (grant : AuthorityGrant) (worker : WorkerProfile)
    → IsOk (check_worker item grant worker)
    → IsGranted item grant worker
unfolding check_worker
check_worker-IsGranted item grant worker h =
    let (_, effects, a) =
      >>=-eq-ok
        (require
          (is_subset item.requested_effects grant.effects
            && is_subset item.requested_effects worker.effects)
          _)
        _ h in
    let (_, paths, b) =
      >>=-eq-ok
        (require
          (all (λ s. covered grant.allowed_paths s && covered worker.allowed_paths s)
            item.allowed_paths)
          _)
        _ a in
    let both =
      and_true {a = is_subset item.requested_effects grant.effects} (require-eq-ok _ _ effects) in
    let scoped =
      all-and (covered grant.allowed_paths) (covered worker.allowed_paths) item.allowed_paths
        (require-eq-ok _ _ paths) in
    record {
      granted_effects = both.0;
      worker_effects = both.1;
      granted_paths = scoped.0;
      worker_paths = scoped.1;
      budget = require-eq-ok _ _ b;
    }

authorize_item-IsGranted :
    (policy : Policy) (project_root : String) (now : ℕ) (item : WorkItem) (principal_id : String)
    (worker_id : Option String) (grant : AuthorityGrant) (worker : WorkerProfile)
    → authorize_item policy project_root now item principal_id worker_id ≡ ok (grant, worker)
    → (entry_of item.authority_ref policy.authorities ≡ some grant)
      × (grant.principal_id ≡ principal_id)
      × IsGranted item grant worker
unfolding authorize_item
authorize_item-IsGranted policy project_root now item principal_id worker_id grant worker h =
    let (g, found, a) =
      >>=-eq-ok (or_raise (entry_of item.authority_ref policy.authorities) _) _ h in
    let (_, owned, b) = >>=-eq-ok (require (str_eq g.principal_id principal_id) _) _ a in
    let (_, here_is, c) = >>=-eq-ok (require (str_eq g.project_root project_root) _) _ b in
    let (_, valid, d) = >>=-eq-ok (refuse (expired g.expires_at now) _) _ c in
    let (_, does, e) = >>=-eq-ok (require (text_in item.workflow g.workflows) _) _ d in
    let (w, chosen, f) =
      >>=-eq-ok
        (or_raise (first_worker (candidates (is_candidate g item worker_id) policy.workers)) _) _
        e in
    let (_, fits, k) = >>=-eq-ok (check_worker item g w) _ f in
    let pair = ok_injective k in
    let is_grant : g ≡ grant = ap (λ x. x.0) pair in
    let is_worker : w ≡ worker = ap (λ x. x.1) pair in
    (
      or_raise-eq-ok _ _ found ∙ ap some is_grant,
      ap (λ (x : AuthorityGrant). x.principal_id) (sym is_grant)
          ∙ (eq_iff g.principal_id principal_id).0 (require-eq-ok _ _ owned),
      subst (IsGranted item grant) is_worker (
          subst (λ x. IsGranted item x w) is_grant
            (check_worker-IsGranted item g w (ok_unit _ fits))),
    )

-- What an amount of a budget is below.
abbrev pub IsAffordable : AuthorityGrant → WorkerProfile → String × ℕ → Type 0
IsAffordable grant worker b =
    IsBelow b.1 (limit_of b.0 grant.max_budget) × IsBelow b.1 (limit_of b.0 worker.max_budget)

check_result-files :
    (item : WorkItem) (r : WorkerResult) (files : List (List ℕ))
    → IsOk (check_result item r)
    → r.changed_files ≡ listed files
    → IsOk (each (check_file item) files)
unfolding check_result
check_result-files item r files h is_list =
    let (_, bound, a) =
      >>=-eq-ok
        (require
          (option_eq r.schema (some "formalspecgen-worker-result-v1")
            && (option_eq r.work_item_id (some item.work_item_id)
                && option_eq r.base_revision (some item.base_revision)))
          _)
        _ h in
    let (_, whole, b) = >>=-eq-ok (require (digest_or_none r.patch_sha256) _) _ a in
    let (changed, read, c) =
      >>=-eq-ok (entries "changed_files must be a list" r.changed_files) _ b in
    let (_, checked, d) = >>=-eq-ok (each (check_file item) changed) _ c in
    let same : files ≡ changed =
      ok_injective (sym (ap (entries "changed_files must be a list") is_list) ∙ read) in
    subst (λ l. IsOk (each (check_file item) l)) (sym same) (ok_unit _ checked)

-- A changed file of an accepted result, normalised, is one that the item allows and does not protect, and
-- if the scopes of the grant under which the item was authorised come from the normalisation of scopes, it
-- is in them, or it is the root of one of their trees, which the grant itself does not allow.
pub validate_result-IsWithin :
    (policy : Policy) (project_root : String) (now : ℕ) (item : WorkItem) (principal_id : String)
    (worker_id : Option String) (grant : AuthorityGrant) (worker : WorkerProfile) (r : WorkerResult)
    (files : List (List ℕ)) (raw : List ℕ)
    → authorize_item policy project_root now item principal_id worker_id ≡ ok (grant, worker)
    → IsNormal grant.allowed_paths
    → validate_result item (some r) ≡ ok (some r)
    → r.changed_files ≡ listed files
    → In raw files
    → (path : List ℕ) × (scope raw ≡ ok path)
      × (path_allowed path item.allowed_paths ≡ true)
      × (path_allowed path item.protected_paths ≡ false)
      × IsInScope path grant.allowed_paths
unfolding validate_result check_file
validate_result-IsWithin policy project_root now item principal_id worker_id grant worker r files
      raw h normal_grant accepted is_list m =
    let (found, owner, g) =
      authorize_item-IsGranted policy project_root now item principal_id worker_id grant worker h in
    let (_, ran, _) = >>=-eq-ok (check_result item r) _ accepted in
    let one =
      each-In (check_file item) files (check_result-files item r files (ok_unit _ ran) is_list) raw
        m in
    let (path, scoped, a) = >>=-eq-ok (scope raw) _ one in
    let both =
      and_true {a = path_allowed path item.allowed_paths}
        {b = not (path_allowed path item.protected_paths)} (require-eq-ok _ _ a) in
    (
      path,
      scoped,
      both.0,
      (let q = both.1 in ground arith),
      path_allowed-contained grant.allowed_paths item.allowed_paths path normal_grant
          g.granted_paths both.0,
    )
