-- ===== src/Lifecycle/Responses.antt =====
-- What a refusal by cmdCephBootstrapPut (microceph/api/placement.go) leaves behind.
use microceph.Prelude.{
  String, List, Bool, true, false, Option, none, some, string_eq, ◌≡◌, ◌≢◌, refl, subst, sym, ◌∙◌,
  Result, ok, err, arith, if◌then◌else◌,
}
use microceph.Placement.Put.{Response, bad_request, conflict}
use microceph.Lifecycle.{
  Database, BootstrapError, unknown_target, in_transaction, set_cluster_lifecycle,
}
use microceph.Lifecycle.Bootstrap.{
  Env, is_stale, mark_recovered, healed, verified, recover_from,
  recover_stale_bootstrapped_lifecycle, atomic_start, unless_recovered, contains, known_target,
  atomic_start_bootstrap, record_result, concluded, after_steps, after_start, bootstrap_ceph,
}
use microceph.Lifecycle.Handler.{
  Decoded, malformed, no_body, request, is_client_side_bootstrap_error, in_progress_response,
  answer_bootstrap, answered, target_of, targeted, cmd_ceph_bootstrap_put,
}
use microceph.Lifecycle.Steps.{
  Parts, populate_bootstrap_database, bring_up, after_populate, prepare, prod_bootstrap_ceph_steps,
}

-- The refusals that the handler makes itself: BadRequest, and its own 409 for a bootstrap in progress.
-- SmartError is not one of them, although it may pass on a status of 400 or 409 too.
abbrev pub refuses_itself : Response → Bool
refuses_itself bad_request = true
refuses_itself conflict = true
refuses_itself _ = false

checked-same : (fault : Option String) (db : Database) → (in_transaction fault is_stale db).0 ≡ db
unfolding in_transaction is_stale
checked-same none db = ground arith
checked-same (some f) db = refl

start-same :
    (fault : Option String) (target : String) (force : Bool) (db : Database) {e : BootstrapError}
    → (atomic_start fault target force db).1 ≡ err e
    → (atomic_start fault target force db).0 ≡ db
unfolding atomic_start in_transaction
start-same (some f) target force db h = refl
start-same none target force db h = ground arith

verified-same :
    (env : Env) (target : String) (b : Bool) (db : Database)
    → (verified env target b db).1 ≢ ok true
    → (verified env target b db).0 ≡ db
unfolding verified healed mark_recovered in_transaction set_cluster_lifecycle
verified-same env target false db h = refl
verified-same env target true db h = ground arith

recover-same :
    (env : Env) (target : String) (r : Database × Result BootstrapError Bool)
    → (recover_from env target r).1 ≢ ok true
    → (recover_from env target r).0 ≡ r.0
unfolding recover_from
recover-same env target (db, err e) h = refl
recover-same env target (db, ok false) h = refl
recover-same env target (db, ok true) h = verified-same env target env.reachable db h

unless-same :
    (env : Env) (target : String) (force : Bool) (r : Database × Result BootstrapError Bool)
    {e : BootstrapError}
    → (unless_recovered env target force r).1 ≡ err e
    → (r.1 ≢ ok true) × ((unless_recovered env target force r).0 ≡ r.0)
unfolding unless_recovered
unless-same env target force (db, err x) h = (λ k. cc, refl)
unless-same env target force (db, ok true) h = cc
unless-same env target force (db, ok false) h =
    (λ k. cc, start-same env.start_fault target force db h)

known-same :
    (env : Env) (target : String) (force : Bool) (m : Result String (List String)) (db : Database)
    {e : BootstrapError}
    → (known_target env target force m db).1 ≡ err e
    → (known_target env target force m db).0 ≡ db
unfolding known_target recover_stale_bootstrapped_lifecycle
known-same env target force (err x) db h = refl
known-same env target force (ok names) db {e} h = by_test (contains target names) h
  where
    attempt : Database × Result BootstrapError Bool
    attempt =
        unless_recovered env target force
          (recover_from env target (in_transaction env.check_fault is_stale db))

    by_test :
        (b : Bool)
        → (if b then attempt else (db, err unknown_target)).1 ≡ err e
        → (if b then attempt else (db, err unknown_target)).0 ≡ db
    by_test false k = refl
    by_test true k =
        let checked = in_transaction env.check_fault is_stale db in
        let (stopped, first) = unless-same env target force (recover_from env target checked) k in
        first ∙ recover-same env target checked stopped ∙ checked-same env.check_fault db

-- The steps of the daemon fail with no error of BootstrapCeph's own.
steps-unrefused :
    (parts : Parts) (db : Database)
    → refuses_itself (answer_bootstrap (prod_bootstrap_ceph_steps parts db).1) ≡ false
unfolding prod_bootstrap_ceph_steps prepare after_populate bring_up populate_bootstrap_database
    in_transaction answer_bootstrap is_client_side_bootstrap_error in_progress_response
steps-unrefused parts db = ground arith

recorded-unrefused :
    (env : Env) (target : String) (p : Database × Option BootstrapError)
    → refuses_itself (answer_bootstrap p.1) ≡ false
    → refuses_itself (answer_bootstrap (after_steps env target p).1) ≡ false
unfolding after_steps record_result in_transaction set_cluster_lifecycle concluded answer_bootstrap
    is_client_side_bootstrap_error in_progress_response
recorded-unrefused env target (db, none) h = ground arith
recorded-unrefused env target (db, some e) h = ground arith

module _ (env : Env) (parts : Parts) (injected : env.steps ≡ prod_bootstrap_ceph_steps parts) where
  started-same :
      (target : String) (db : Database) (r : Database × Result BootstrapError Bool)
      → ((e : BootstrapError) → r.1 ≡ err e → r.0 ≡ db)
      → refuses_itself (answer_bootstrap (after_start env target r).1) ≡ true
      → (after_start env target r).0 ≡ db
  unfolding after_start
  started-same target db (db', err e) same h = same e refl
  started-same target db (db', ok false) same h = unfold answer_bootstrap in cc
  started-same target db (db', ok true) same h =
      let unrefused = recorded-unrefused env target (env.steps db') (
        subst (λ run. refuses_itself (answer_bootstrap (run db').1) ≡ false) (sym injected)
          (steps-unrefused parts db')) in
      cc

  bootstrap-same :
      (target : String) (force : Bool) (db : Database)
      → refuses_itself (answer_bootstrap (bootstrap_ceph env target force db).1) ≡ true
      → (bootstrap_ceph env target force db).0 ≡ db
  unfolding bootstrap_ceph atomic_start_bootstrap
  bootstrap-same target force db h = ground (
    arith,
    started-same target db (known_target env target force env.members db)
        (λ (e : BootstrapError). known-same env target force env.members db {e = e}),
  )

  targeted-same :
      (name target : String) (force : Bool) (db : Database)
      → refuses_itself (targeted env name target force db).1 ≡ true
      → (targeted env name target force db).0 ≡ db
  unfolding targeted answered
  targeted-same name target force db h = ground (arith, bootstrap-same target force db)

-- A bootstrap request that the handler itself refuses, with BadRequest or with its own 409, over the
-- steps of the daemon, has left the database as it was: the request is malformed, for no member or
-- another member, for a target that the cluster does not know, over a partial bootstrap, or during
-- another bootstrap. Nothing is said of an error that goes through SmartError, whatever its status.
pub put-refused :
    (env : Env) (parts : Parts) (name query : String) (decoded : Decoded) (db : Database)
    → env.steps ≡ prod_bootstrap_ceph_steps parts
    → refuses_itself (cmd_ceph_bootstrap_put env name query decoded db).1 ≡ true
    → (cmd_ceph_bootstrap_put env name query decoded db).0 ≡ db
unfolding cmd_ceph_bootstrap_put
put-refused env parts name query malformed db injected h = refl
put-refused env parts name query no_body db injected h =
    targeted-same env parts injected name query false db h
put-refused env parts name query (request req) db injected h =
    targeted-same env parts injected name (target_of req.target query) req.force db h
