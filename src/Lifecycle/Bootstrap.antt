-- ===== src/Lifecycle/Bootstrap.antt =====
-- BootstrapCeph of microceph/ceph/bootstrap_ceph.go transaction by transaction.
use microceph.Prelude.{
  String, List, [], ◌∷◌, Bool, true, false, not, ◌||◌, Option, none, some, ◌==◌, string_eq, Result,
  ok, err, if◌then◌else◌,
}
use microceph.Lifecycle.{
  CephState, not_bootstrapped, in_progress, bootstrapped, failed, ClusterLifecycle, Database,
  Detail, empty, force_reset, failure, BootstrapError, already_in_progress, unknown_target,
  partial_bootstrap, no_server_certificate, row_missing, members_unlisted, unexpected_state,
  unmarked, unrecorded, unrecorded_failure, Body, in_transaction, set_cluster_lifecycle,
  config_indicates_bootstrapped, is_bootstrapped,
}

-- What lies outside a call: the lock of the daemon, its certificate, the answer of the leader, the
-- outcome of the four transactions, that of `ceph -s`, and the bootstrap steps, which may write
-- config rows and fail.
pub record Env : Type 0 where
  pub busy : Bool
  pub server_cert : Bool
  pub members : Result String (List String)
  pub check_fault : Option String
  pub heal_fault : Option String
  pub start_fault : Option String
  pub record_fault : Option String
  pub reachable : Bool
  pub steps : Database → Database × Option BootstrapError

unfoldable pub stale_row : Database → Option ClusterLifecycle → Result BootstrapError Bool
unfolding config_indicates_bootstrapped
stale_row db none = err row_missing
stale_row db (some lc) =
    ok (if is_bootstrapped lc.ceph_bootstrap_state then false else config_indicates_bootstrapped db)

-- The first transaction of recoverStaleBootstrappedLifecycle.
unfoldable pub is_stale : Body Bool
unfolding stale_row
is_stale db = (db, stale_row db db.lifecycle)

abbrev pub lifecycle_of : CephState → String → Detail → ClusterLifecycle
lifecycle_of state target detail = record {
  ceph_bootstrap_state = state;
  ceph_bootstrap_target = target;
  detail = detail;
}

-- The second transaction of recoverStaleBootstrappedLifecycle.
unfoldable pub mark_recovered : Option String → String → Body (Unit {0})
unfolding in_transaction set_cluster_lifecycle
mark_recovered fault target =
    in_transaction fault (set_cluster_lifecycle (lifecycle_of bootstrapped target empty))

unfoldable pub healed :
    Database × Result BootstrapError (Unit {0}) → Database × Result BootstrapError Bool
healed (db, ok u) = (db, ok true)
healed (db, err e) = (db, err (unmarked e))

-- Once `ceph -s` has answered.
unfoldable pub verified : Env → String → Bool → Body Bool
unfolding healed mark_recovered
verified env target true db = healed (mark_recovered env.heal_fault target db)
verified env target false db = (db, err partial_bootstrap)

unfoldable pub recover_from :
    Env → String → Database × Result BootstrapError Bool → Database × Result BootstrapError Bool
unfolding verified
recover_from env target (db, err e) = (db, err e)
recover_from env target (db, ok false) = (db, ok false)
recover_from env target (db, ok true) = verified env target env.reachable db

-- recoverStaleBootstrappedLifecycle.
unfoldable pub recover_stale_bootstrapped_lifecycle : Env → String → Body Bool
unfolding recover_from in_transaction is_stale
recover_stale_bootstrapped_lifecycle env target db =
    recover_from env target (in_transaction env.check_fault is_stale db)

-- `--force`: a row that is in progress becomes failed.
reset_row : Option ClusterLifecycle → Option ClusterLifecycle
reset_row none = none
reset_row (some lc) = some (elim lc.ceph_bootstrap_state [
  | in_progress ↦ record lc { ceph_bootstrap_state = failed; detail = force_reset }
  | _ ↦ lc
])

unfoldable pub reset_forced : Bool → Database → Database
unfolding reset_row
reset_forced force db = if force then record db { lifecycle = reset_row db.lifecycle } else db

-- The WHERE clause of the conditional UPDATE.
abbrev pub is_claimable : CephState → Bool
is_claimable not_bootstrapped = true
is_claimable failed = true
is_claimable _ = false

-- Why the conditional UPDATE changed no row.
unfoldable pub start_refusal : CephState → Result BootstrapError Bool
start_refusal bootstrapped = ok false
start_refusal in_progress = err already_in_progress
start_refusal state = err (unexpected_state state)

unfoldable pub claim_row :
    String → Database → Option ClusterLifecycle → Database × Result BootstrapError Bool
unfolding config_indicates_bootstrapped start_refusal
claim_row target db none = (db, err row_missing)
claim_row target db (some lc) =
    if config_indicates_bootstrapped db
    then (db, if is_bootstrapped lc.ceph_bootstrap_state then ok false else err partial_bootstrap)
    else if is_claimable lc.ceph_bootstrap_state
    then (record db { lifecycle = some (lifecycle_of in_progress target empty) }, ok true)
    else (db, start_refusal lc.ceph_bootstrap_state)

-- The transaction of atomicStartBootstrap.
unfoldable pub atomic_start : Option String → String → Bool → Body Bool
unfolding in_transaction claim_row reset_forced
atomic_start fault target force =
    in_transaction fault
      (λ db. let db' = reset_forced force db in claim_row target db' db'.lifecycle)

unfoldable pub unless_recovered :
    Env
    → String
    → Bool
    → Database × Result BootstrapError Bool
    → Database × Result BootstrapError Bool
unfolding atomic_start
unless_recovered env target force (db, err e) = (db, err e)
unless_recovered env target force (db, ok true) = (db, ok false)
unless_recovered env target force (db, ok false) = atomic_start env.start_fault target force db

unfoldable pub contains : String → List String → Bool
contains name [] = false
contains name (x ∷ xs) = x == name || contains name xs

unfoldable pub known_target : Env → String → Bool → Result String (List String) → Body Bool
unfolding contains unless_recovered recover_stale_bootstrapped_lifecycle
known_target env target force (err e) db = (db, err (members_unlisted e))
known_target env target force (ok names) db =
    if contains target names
    then unless_recovered env target force (recover_stale_bootstrapped_lifecycle env target db)
    else (db, err unknown_target)

-- atomicStartBootstrap.
unfoldable pub atomic_start_bootstrap : Env → String → Bool → Body Bool
unfolding known_target
atomic_start_bootstrap env target force = known_target env target force env.members

-- The row that records the result of the steps.
abbrev pub result_row : String → Option BootstrapError → ClusterLifecycle
result_row target none = lifecycle_of bootstrapped target empty
result_row target (some e) = lifecycle_of failed target (failure e)

unfoldable pub record_result : Option String → String → Option BootstrapError → Body (Unit {0})
unfolding in_transaction set_cluster_lifecycle
record_result fault target outcome =
    in_transaction fault (set_cluster_lifecycle (result_row target outcome))

-- The result of BootstrapCeph once that of the steps is recorded, or cannot be.
unfoldable pub concluded :
    Option BootstrapError
    → Database × Result BootstrapError (Unit {0})
    → Database × Option BootstrapError
concluded outcome (db, ok u) = (db, outcome)
concluded none (db, err e) = (db, some (unrecorded e))
concluded (some failed_step) (db, err e) = (db, some (unrecorded_failure failed_step e))

unfoldable pub after_steps :
    Env → String → Database × Option BootstrapError → Database × Option BootstrapError
unfolding concluded record_result
after_steps env target (db, outcome) =
    concluded outcome (record_result env.record_fault target outcome db)

unfoldable pub after_start :
    Env → String → Database × Result BootstrapError Bool → Database × Option BootstrapError
unfolding after_steps
after_start env target (db, err e) = (db, some e)
after_start env target (db, ok false) = (db, none)
after_start env target (db, ok true) = after_steps env target (env.steps db)

-- BootstrapCeph.
unfoldable pub bootstrap_ceph : Env → String → Bool → Database → Database × Option BootstrapError
unfolding after_start atomic_start_bootstrap
bootstrap_ceph env target force db =
    if env.busy
    then (db, some already_in_progress)
    else if not env.server_cert
    then (db, some no_server_certificate)
    else after_start env target (atomic_start_bootstrap env target force db)
