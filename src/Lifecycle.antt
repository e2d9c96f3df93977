-- ===== src/Lifecycle.antt =====
-- The cluster_lifecycle row and the config rows that tell whether Ceph is bootstrapped:
-- microceph/database/cluster_lifecycle_extras.go and microceph/ceph/lifecycle.go.
pub mod Bootstrap
pub mod Handler
pub mod Steps
pub mod Interleaving
pub mod Outcome
pub mod Exclusion
pub mod Refines
pub mod Existing
pub mod Rows
pub mod Responses
use microceph.Prelude.{
  String, List, Bool, true, false, not, ◌&&◌, Option, none, some, ◌==◌, string_eq, Result, ok, err,
  if◌then◌else◌,
}

-- The text of ceph_bootstrap_state; `other` is any text but the four that the code knows.
pub data CephState : Type 0 where
  not_bootstrapped in_progress bootstrapped failed : CephState
  other : String → CephState

-- The errors of BootstrapCeph, without the texts that they are wrapped in; `command_failed` is
-- that of a command or a file.
pub data BootstrapError : Type 0 where
  already_in_progress unknown_target partial_bootstrap : BootstrapError
  no_server_certificate row_missing config_exists : BootstrapError
  members_unlisted database_failed command_failed : String → BootstrapError
  unexpected_state : CephState → BootstrapError
  unmarked unrecorded : BootstrapError → BootstrapError
  unrecorded_failure : BootstrapError → BootstrapError → BootstrapError

-- What the column holds: nothing, the text of a forced reset, or the text of an error.
pub data Detail : Type 0 where
  empty force_reset : Detail
  failure : BootstrapError → Detail

pub record ClusterLifecycle : Type 0 where
  pub ceph_bootstrap_state : CephState
  pub ceph_bootstrap_target : String
  pub detail : Detail

-- The two tables, of config the two rows that the lifecycle reads. The table of lifecycles holds
-- at most the row with id 1.
pub record Database : Type 0 where
  pub lifecycle : Option ClusterLifecycle
  pub fsid : Option String
  pub admin_keyring : Option String

-- What runs inside a transaction.
abbrev pub Body : Type 0 → Type 0
Body A = Database → Database × Result BootstrapError A

commit :
    {A : Type 0}
    → Database
    → Database × Result BootstrapError A
    → Database × Result BootstrapError A
commit db (db', ok x) = (db', ok x)
commit db (db', err e) = (db, err e)

-- Database().Transaction: an error of the body rolls it back, and the database itself may refuse.
unfoldable pub in_transaction : {A : Type 0} → Option String → Body A → Body A
unfolding commit
in_transaction none body db = commit db (body db)
in_transaction (some fault) body db = (db, err (database_failed fault))

-- GetClusterLifecycle.
unfoldable pub get_cluster_lifecycle : Body ClusterLifecycle
get_cluster_lifecycle db = (db, elim db.lifecycle [ none ↦ err row_missing | some lc ↦ ok lc ])

set_row :
    ClusterLifecycle
    → Database
    → Option ClusterLifecycle
    → Database × Result BootstrapError (Unit {0})
set_row lc db none = (db, err row_missing)
set_row lc db (some old) = (record db { lifecycle = some lc }, ok tt)

-- SetClusterLifecycle.
unfoldable pub set_cluster_lifecycle : ClusterLifecycle → Body (Unit {0})
unfolding set_row
set_cluster_lifecycle lc db = set_row lc db db.lifecycle

is_set : Option String → Bool
is_set none = false
is_set (some value) = not (value == "")

-- configIndicatesBootstrapped, where its two reads succeed.
unfoldable pub config_indicates_bootstrapped : Database → Bool
unfolding is_set
config_indicates_bootstrapped db = is_set db.fsid && is_set db.admin_keyring

abbrev pub is_bootstrapped : CephState → Bool
is_bootstrapped bootstrapped = true
is_bootstrapped _ = false

-- MarkCephBootstrappedFunc.
unfoldable pub mark_ceph_bootstrapped : Bool → Option String → Body (Unit {0})
unfolding in_transaction set_cluster_lifecycle
mark_ceph_bootstrapped server_cert fault db =
    if server_cert
    then in_transaction fault
        (set_cluster_lifecycle (record {
          ceph_bootstrap_state = bootstrapped;
          ceph_bootstrap_target = "";
          detail = empty;
        }))
        db
    else (db, ok tt)

-- cephBootstrappedFromConfigFunc.
unfoldable pub ceph_bootstrapped_from_config : Option String → Database → Result BootstrapError Bool
unfolding in_transaction config_indicates_bootstrapped
ceph_bootstrapped_from_config fault db =
    (in_transaction fault (λ d. (d, ok (config_indicates_bootstrapped d))) db).1

row_says : Result BootstrapError ClusterLifecycle → Bool
row_says (ok lc) = is_bootstrapped lc.ceph_bootstrap_state
row_says (err e) = false

-- cephIsBootstrappedFunc, with the outcomes of its two transactions.
unfoldable pub ceph_is_bootstrapped :
    Option String → Option String → Database → Result BootstrapError Bool
unfolding row_says in_transaction get_cluster_lifecycle ceph_bootstrapped_from_config
ceph_is_bootstrapped row_fault config_fault db =
    if row_says (in_transaction row_fault get_cluster_lifecycle db).1
    then ok true
    else ceph_bootstrapped_from_config config_fault db
