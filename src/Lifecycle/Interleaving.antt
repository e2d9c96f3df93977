-- ===== src/Lifecycle/Interleaving.antt =====
-- The calls of BootstrapCeph on all members together, interleaved by transactions: the lifecycle
-- row of microceph/database/cluster_lifecycle_extras.go as the lock of
-- microceph/ceph/bootstrap_ceph.go. The requests carry no `--force`.
use microceph.Prelude.{String, List, ◌∷◌, ◌++◌, Bool, true, false, Option, Result, ok, err}
use microceph.Lifecycle.{Database, BootstrapError, in_transaction, mark_ceph_bootstrapped}
use microceph.Lifecycle.Bootstrap.{is_stale, mark_recovered, atomic_start, record_result}
use microceph.Lifecycle.Steps.{populate_bootstrap_database}

-- How far the call on a member is: it found config rows and checks the connection; it may start;
-- it runs the bootstrap steps.
pub data Phase : Type 0 where
  idle verifying ready running : Phase

pub record System : Type 0 where
  pub database : Database
  pub phases : List Phase

abbrev pub after_check : Result BootstrapError Bool → Phase
after_check (ok true) = verifying
after_check (ok false) = ready
after_check (err e) = idle

abbrev pub after_claim : Result BootstrapError Bool → Phase
after_claim (ok true) = running
after_claim _ = idle

-- What one member does next; faults and answers are the environment's choice.
pub data Act : Database → Phase → Database → Phase → Type 0 where
  check :
      (db : Database) (fault : Option String)
      → Act db idle
          (in_transaction fault is_stale db).0
          (after_check (in_transaction fault is_stale db).1)
  unreachable : (db : Database) → Act db verifying db idle
  heal :
      (db : Database) (fault : Option String) (target : String)
      → Act db verifying (mark_recovered fault target db).0 idle
  claim :
      (db : Database) (fault : Option String) (target : String)
      → Act db ready
          (atomic_start fault target false db).0
          (after_claim (atomic_start fault target false db).1)
  populate :
      (db : Database) (cert : Bool) (fault : Option String) (fsid key : String)
      → Act db running (populate_bootstrap_database cert fault fsid key db).0 running
  mark :
      (db : Database) (cert : Bool) (fault : Option String)
      → Act db running (mark_ceph_bootstrapped cert fault db).0 running
  conclude :
      (db : Database) (fault : Option String) (target : String) (outcome : Option BootstrapError)
      → Act db running (record_result fault target outcome db).0 idle

-- Any member acts.
pub data Step : System → System → Type 0 where
  acts :
      {db db' : Database} {p p' : Phase} (before after : List Phase)
      → Act db p db' p'
      → Step
          (record { database = db; phases = before ++ p ∷ after })
          (record { database = db'; phases = before ++ p' ∷ after })

pub data Reach (s : System) : System → Type 0 where
  here : Reach s s
  next : {t u : System} → Reach s t → Step t u → Reach s u
