-- ===== src/Lifecycle/Existing.antt =====
-- The retry of a bootstrap that failed half-way: BootstrapCeph of microceph/ceph/bootstrap_ceph.go
-- over the config rows that the first attempt wrote.
use microceph.Prelude.{
  String, List, Bool, true, false, Option, none, some, ◌≡◌, refl, ap, ◌∙◌, ok, beq_of_ne, string_eq,
  ◌≢◌, ◌≡⟨◌⟩◌, ◌∎, arith, if◌then◌else◌,
}
use microceph.Lifecycle.{
  in_progress, bootstrapped, failed, is_bootstrapped, empty, failure, ClusterLifecycle, Database,
  BootstrapError, partial_bootstrap, command_failed, in_transaction, set_cluster_lifecycle,
  config_indicates_bootstrapped,
}
use microceph.Lifecycle.Bootstrap.{
  Env, is_stale, lifecycle_of, mark_recovered, healed, verified, recover_from,
  recover_stale_bootstrapped_lifecycle, atomic_start, unless_recovered, contains, known_target,
  atomic_start_bootstrap, is_claimable, record_result, concluded, after_steps, after_start,
  bootstrap_ceph,
}
use microceph.Lifecycle.Steps.{
  Parts, populate_bootstrap_database, bring_up, after_populate, prepare, prod_bootstrap_ceph_steps,
}

-- A call that passes its tests, at a known member, on a database that answers.
pub record IsServed (env : Env) (target : String) : Type 0 where
  pub names : List String
  pub free : env.busy ≡ false
  pub certified : env.server_cert ≡ true
  pub listed : env.members ≡ ok names
  pub known : contains target names ≡ true
  pub checks : env.check_fault ≡ none
  pub heals : env.heal_fault ≡ none
  pub starts : env.start_fault ≡ none
  pub records : env.record_fault ≡ none

-- What such a call does, with what the record says of its surroundings put in.
abbrev served : Env → String → Bool → Database → Database × Option BootstrapError
served env target force db =
    after_start env target (
      unless_recovered env target force (recover_from env target (in_transaction none is_stale db)))

bootstrap-served :
    (env : Env) (target : String) (force : Bool) (db : Database)
    → IsServed env target
    → bootstrap_ceph env target force db ≡ served env target force db
unfolding bootstrap_ceph atomic_start_bootstrap known_target recover_stale_bootstrapped_lifecycle
bootstrap-served env target force db s = ground arith

-- The outcome over existing config rows.
abbrev kept : Env → String → Database → ClusterLifecycle → Database × Option BootstrapError
kept env target db lc =
    if is_bootstrapped lc.ceph_bootstrap_state
    then (db, none)
    else if env.reachable
    then (record db { lifecycle = some (lifecycle_of bootstrapped target empty) }, none)
    else (db, some partial_bootstrap)

served-existing :
    (env : Env) (target : String) (force : Bool) (db : Database) (lc : ClusterLifecycle)
    → env.heal_fault ≡ none
    → env.start_fault ≡ none
    → db.lifecycle ≡ some lc
    → config_indicates_bootstrapped db ≡ true
    → served env target force db ≡ kept env target db lc
unfolding after_start unless_recovered recover_from in_transaction is_stale verified healed
    mark_recovered set_cluster_lifecycle atomic_start
served-existing env target force db lc heals starts row config = ground arith

-- The exact outcome of a served call.
served-kept :
    (env : Env) (target : String) (force : Bool) (db : Database) (lc : ClusterLifecycle)
    → IsServed env target
    → db.lifecycle ≡ some lc
    → config_indicates_bootstrapped db ≡ true
    → bootstrap_ceph env target force db ≡ kept env target db lc
served-kept env target force db lc s row config =
    bootstrap-served env target force db s
    ∙ served-existing env target force db lc s.heals s.starts row config

-- An attempt whose commands fail after the database is populated.
pub record FailsHalfWay (parts : Parts) (f : String) : Type 0 where
  pub certified : parts.server_cert ≡ true
  pub prepares : parts.prepared ≡ none
  pub populates : parts.populate_fault ≡ none
  pub fails : parts.brought_up ≡ some f

-- The config rows that it leaves, and the row that records the failure.
abbrev pub half_way : Parts → String → String → Database
half_way parts f target = record {
  lifecycle = some (lifecycle_of failed target (failure (command_failed f)));
  fsid = some parts.fsid;
  admin_keyring = some parts.admin_key;
}

steps-half_way :
    (parts : Parts) (f : String) (db : Database)
    → FailsHalfWay parts f
    → db.fsid ≡ none
    → db.admin_keyring ≡ none
    → prod_bootstrap_ceph_steps parts db ≡ (
      record db { fsid = some parts.fsid; admin_keyring = some parts.admin_key },
      some (command_failed f),
    )
unfolding prod_bootstrap_ceph_steps prepare after_populate bring_up populate_bootstrap_database
    in_transaction
steps-half_way parts f db h no_fsid no_key = ground arith

-- The row that the call holds while its steps run.
abbrev claimed : String → Database → Database
claimed target db = record db { lifecycle = some (lifecycle_of in_progress target empty) }

served-claims :
    (env : Env) (target : String) (db : Database) (lc : ClusterLifecycle)
    → env.start_fault ≡ none
    → db.fsid ≡ none
    → db.lifecycle ≡ some lc
    → is_claimable lc.ceph_bootstrap_state ≡ true
    → served env target false db ≡ after_steps env target (env.steps (claimed target db))
unfolding after_start unless_recovered recover_from in_transaction is_stale atomic_start
    config_indicates_bootstrapped
served-claims env target db lc starts no_fsid row claimable = ground arith

steps-recorded :
    (env : Env) (target : String) (db : Database) (e : BootstrapError) (lc : ClusterLifecycle)
    → env.record_fault ≡ none
    → db.lifecycle ≡ some lc
    → after_steps env target (db, some e)
      ≡ (record db { lifecycle = some (lifecycle_of failed target (failure e)) }, some e)
unfolding after_steps record_result in_transaction set_cluster_lifecycle concluded
steps-recorded env target db e lc records row = ground arith

attempt-half_way :
    (env : Env) (parts : Parts) (f target : String) (db : Database) (lc : ClusterLifecycle)
    → IsServed env target
    → env.steps ≡ prod_bootstrap_ceph_steps parts
    → FailsHalfWay parts f
    → db.fsid ≡ none
    → db.admin_keyring ≡ none
    → db.lifecycle ≡ some lc
    → is_claimable lc.ceph_bootstrap_state ≡ true
    → bootstrap_ceph env target false db ≡ (half_way parts f target, some (command_failed f))
attempt-half_way env parts f target db lc s injected h no_fsid no_key row claimable =
    let held = claimed target db in
    let written = record held { fsid = some parts.fsid; admin_keyring = some parts.admin_key } in
    bootstrap_ceph env target false db
    ≡⟨ bootstrap-served env target false db s ⟩ served env target false db
    ≡⟨ served-claims env target db lc s.starts no_fsid row claimable ⟩
      after_steps env target (env.steps held)
    ≡⟨ ap (λ run. after_steps env target (run held)) injected ⟩
      after_steps env target (prod_bootstrap_ceph_steps parts held)
    ≡⟨ ap (after_steps env target) (steps-half_way parts f held h no_fsid no_key) ⟩
      after_steps env target (written, some (command_failed f))
    ≡⟨ steps-recorded env target written (command_failed f) (lifecycle_of in_progress target empty)
        s.records refl ⟩
      (half_way parts f target, some (command_failed f)) ∎

config-half_way :
    (parts : Parts) (f target : String)
    → parts.fsid ≢ ""
    → parts.admin_key ≢ ""
    → config_indicates_bootstrapped (half_way parts f target) ≡ true
unfolding config_indicates_bootstrapped
config-half_way parts f target fsid key =
    rw (beq_of_ne parts.fsid "" fsid, beq_of_ne parts.admin_key "" key) refl

-- Of two calls that are served (the daemon is free and has a certificate, the leader lists the
-- members and the target is one of them, and the transactions of the call succeed), the first, not
-- forced, finds a claimable row and no config row, and its commands fail after the database is
-- populated with an FSID and a key that are not empty: it reports their error, and records it beside
-- the config rows. The second, on any member, forced or not, then runs no bootstrap step: it succeeds
-- and marks Ceph bootstrapped where Ceph answers on that member, and else reports a partial bootstrap
-- and leaves the record of the failure.
pub retry-half_way :
    (env env' : Env) (parts : Parts) (f target target' : String) (force : Bool) (db : Database)
    (lc : ClusterLifecycle)
    → IsServed env target
    → IsServed env' target'
    → env.steps ≡ prod_bootstrap_ceph_steps parts
    → FailsHalfWay parts f
    → parts.fsid ≢ ""
    → parts.admin_key ≢ ""
    → db.fsid ≡ none
    → db.admin_keyring ≡ none
    → db.lifecycle ≡ some lc
    → is_claimable lc.ceph_bootstrap_state ≡ true
    → ((bootstrap_ceph env target false db).1 ≡ some (command_failed f))
      × (bootstrap_ceph env' target' force (bootstrap_ceph env target false db).0 ≡ (
          if env'.reachable
          then (
            record (half_way parts f target) {
              lifecycle = some (lifecycle_of bootstrapped target' empty);
            },
            none,
          )
          else (half_way parts f target, some partial_bootstrap)))
retry-half_way env env' parts f target target' force db lc s s' injected h fsid key no_fsid no_key
      row claimable =
    let first =
      attempt-half_way env parts f target db lc s injected h no_fsid no_key row claimable in
    let again =
      served-kept env' target' force (half_way parts f target)
        (lifecycle_of failed target (failure (command_failed f))) s' refl
        (config-half_way parts f target fsid key) in
    (ap (λ r. r.1) first, ap (λ r. bootstrap_ceph env' target' force r.0) first ∙ again)
