-- ===== src/Lifecycle/Steps.antt =====
-- What prodBootstrapCephStepsFunc (microceph/cmd/microcephd/prod_wiring.go) does to the database
-- through SimpleBootstrapper.Bootstrap (microceph/cmd/microcephd/simple_bootstrapper.go).
use microceph.Prelude.{String, Bool, Option, none, some, Result, ok, err, if◌then◌else◌}
use microceph.Lifecycle.{
  Database, BootstrapError, command_failed, config_exists, no_server_certificate, Body,
  in_transaction, mark_ceph_bootstrapped,
}

-- The outcome of the parts that run commands and write files: those before the database is
-- populated, and those after; the two values that are written; the outcome of the transactions.
pub record Parts : Type 0 where
  pub server_cert : Bool
  pub prepared : Option String
  pub fsid : String
  pub admin_key : String
  pub populate_fault : Option String
  pub brought_up : Option String
  pub mark_fault : Option String

-- CreateConfigItem, which refuses a key that has a row.
create_items :
    String
    → String
    → Database
    → Option String
    → Option String
    → Database × Result BootstrapError (Unit {0})
create_items fsid key db none none =
    (record db { fsid = some fsid; admin_keyring = some key }, ok tt)
create_items fsid key db _ _ = (db, err config_exists)

-- PopulateBootstrapDatabase, of whose rows the two that the lifecycle reads are kept.
unfoldable pub populate_bootstrap_database :
    Bool → Option String → String → String → Body (Unit {0})
unfolding in_transaction create_items
populate_bootstrap_database server_cert fault fsid key db =
    if server_cert
    then in_transaction fault (λ d. create_items fsid key d d.fsid d.admin_keyring) db
    else (db, err no_server_certificate)

-- Services, CRUSH rules and configuration; then the lifecycle is marked, where a failure is only
-- logged.
unfoldable pub bring_up : Parts → Option String → Database → Database × Option BootstrapError
unfolding mark_ceph_bootstrapped
bring_up parts (some fault) db = (db, some (command_failed fault))
bring_up parts none db = ((mark_ceph_bootstrapped parts.server_cert parts.mark_fault db).0, none)

unfoldable pub after_populate :
    Parts → Database × Result BootstrapError (Unit {0}) → Database × Option BootstrapError
unfolding bring_up
after_populate parts (db, err e) = (db, some e)
after_populate parts (db, ok u) = bring_up parts parts.brought_up db

unfoldable pub prepare : Parts → Option String → Database → Database × Option BootstrapError
unfolding after_populate populate_bootstrap_database
prepare parts (some fault) db = (db, some (command_failed fault))
prepare parts none db = after_populate parts (
    populate_bootstrap_database parts.server_cert parts.populate_fault parts.fsid parts.admin_key
      db)

-- prodBootstrapCephStepsFunc.
unfoldable pub prod_bootstrap_ceph_steps : Parts → Database → Database × Option BootstrapError
unfolding prepare
prod_bootstrap_ceph_steps parts db = prepare parts parts.prepared db
