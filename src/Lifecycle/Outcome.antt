-- ===== src/Lifecycle/Outcome.antt =====
-- What a BootstrapCeph that succeeds leaves: microceph/ceph/bootstrap_ceph.go, with the guard of
-- the placement engine, cephIsBootstrappedFunc of microceph/ceph/lifecycle.go.
use microceph.Prelude.{
  String, List, [], ◌∷◌, Bool, true, false, Option, none, some, ◌≡◌, ◌≢◌, refl, ap, subst, sym,
  Result, ok, err, arith, if◌then◌else◌,
}
use microceph.Placement.Errors.{RemoteError, not_bootstrapped as placement_not_bootstrapped}
use microceph.Placement.Policy.{Members, PlacementPolicy}
use microceph.Placement.Apply.{
  Cluster, first_unknown, check_known, check_bootstrapped, check_members, validate_placement,
}
use microceph.Lifecycle.{
  is_bootstrapped, ClusterLifecycle, Database, BootstrapError, already_in_progress, unknown_target,
  no_server_certificate, get_cluster_lifecycle, in_transaction, set_cluster_lifecycle,
  ceph_is_bootstrapped,
}
use microceph.Lifecycle.Bootstrap.{
  Env, is_stale, mark_recovered, healed, verified, recover_from,
  recover_stale_bootstrapped_lifecycle, atomic_start, unless_recovered, contains, known_target,
  atomic_start_bootstrap, record_result, concluded, after_steps, after_start, bootstrap_ceph,
}

abbrev pub row_up : Option ClusterLifecycle → Bool
row_up none = false
row_up (some lc) = is_bootstrapped lc.ceph_bootstrap_state

start-up :
    (fault : Option String) (target : String) (force : Bool) (db : Database)
    → (atomic_start fault target force db).1 ≡ ok false
    → row_up (atomic_start fault target force db).0.lifecycle ≡ true
unfolding atomic_start in_transaction
start-up (some f) target force db h = cc
start-up none target force db h = ground arith

verified-up :
    (env : Env) (target : String) (b : Bool) (db : Database)
    → (verified env target b db).1 ≡ ok true
    → row_up (verified env target b db).0.lifecycle ≡ true
unfolding verified healed mark_recovered in_transaction set_cluster_lifecycle
verified-up env target false db h = cc
verified-up env target true db h = ground arith

recover-up :
    (env : Env) (target : String) (r : Database × Result BootstrapError Bool)
    → (recover_from env target r).1 ≡ ok true
    → row_up (recover_from env target r).0.lifecycle ≡ true
unfolding recover_from
recover-up env target (db, err e) h = cc
recover-up env target (db, ok false) h = cc
recover-up env target (db, ok true) h = verified-up env target env.reachable db h

unless-up :
    (env : Env) (target : String) (force : Bool) (r : Database × Result BootstrapError Bool)
    → (r.1 ≡ ok true → row_up r.0.lifecycle ≡ true)
    → (unless_recovered env target force r).1 ≡ ok false
    → row_up (unless_recovered env target force r).0.lifecycle ≡ true
unfolding unless_recovered
unless-up env target force (db, err e) up h = cc
unless-up env target force (db, ok true) up h = up refl
unless-up env target force (db, ok false) up h = start-up env.start_fault target force db h

known-up :
    (env : Env) (target : String) (force : Bool) (m : Result String (List String)) (db : Database)
    → (known_target env target force m db).1 ≡ ok false
    → row_up (known_target env target force m db).0.lifecycle ≡ true
unfolding known_target recover_stale_bootstrapped_lifecycle
known-up env target force (err e) db h = cc
known-up env target force (ok names) db h = by_test (contains target names) h
  where
    by_test :
        (b : Bool)
        → (if b
            then unless_recovered env target force
                (recover_from env target (in_transaction env.check_fault is_stale db))
            else (db, err unknown_target)).1
          ≡ ok false
        → row_up
            (if b
              then unless_recovered env target force
                  (recover_from env target (in_transaction env.check_fault is_stale db))
              else (db, err unknown_target)).0.lifecycle
          ≡ true
    by_test false k = cc
    by_test true k =
        unless-up env target force
          (recover_from env target (in_transaction env.check_fault is_stale db))
          (recover-up env target (in_transaction env.check_fault is_stale db)) k

steps-up :
    (env : Env) (target : String) (p : Database × Option BootstrapError)
    → (after_steps env target p).1 ≡ none
    → row_up (after_steps env target p).0.lifecycle ≡ true
unfolding after_steps concluded record_result in_transaction set_cluster_lifecycle
steps-up env target (db, none) h = ground arith
steps-up env target (db, some e) h = ground arith

started-up :
    (env : Env) (target : String) (r : Database × Result BootstrapError Bool)
    → (r.1 ≡ ok false → row_up r.0.lifecycle ≡ true)
    → (after_start env target r).1 ≡ none
    → row_up (after_start env target r).0.lifecycle ≡ true
unfolding after_start
started-up env target (db, err e) up h = cc
started-up env target (db, ok false) up h = up refl
started-up env target (db, ok true) up h = steps-up env target (env.steps db) h

-- BootstrapCeph behind its two tests.
abbrev guarded : Env → String → Bool → Database → Bool → Bool → Database × Option BootstrapError
guarded env target force db true cert = (db, some already_in_progress)
guarded env target force db false false = (db, some no_server_certificate)
guarded env target force db false true =
    after_start env target (atomic_start_bootstrap env target force db)

bootstrap-guarded :
    (env : Env) (target : String) (force : Bool) (db : Database) (busy cert : Bool)
    → env.busy ≡ busy
    → env.server_cert ≡ cert
    → bootstrap_ceph env target force db ≡ guarded env target force db busy cert
unfolding bootstrap_ceph
bootstrap-guarded env target force db busy cert b c = ground arith

guarded-up :
    (env : Env) (target : String) (force : Bool) (db : Database) (busy cert : Bool)
    → (guarded env target force db busy cert).1 ≡ none
    → row_up (guarded env target force db busy cert).0.lifecycle ≡ true
unfolding atomic_start_bootstrap
guarded-up env target force db true cert h = cc
guarded-up env target force db false false h = cc
guarded-up env target force db false true h =
    started-up env target (known_target env target force env.members db)
      (known-up env target force env.members db) h

bootstrap-up :
    (env : Env) (target : String) (force : Bool) (db : Database)
    → (bootstrap_ceph env target force db).1 ≡ none
    → row_up (bootstrap_ceph env target force db).0.lifecycle ≡ true
bootstrap-up env target force db h =
    let same = bootstrap-guarded env target force db env.busy env.server_cert refl refl in
    subst (λ r. row_up r.0.lifecycle ≡ true) (sym same)
      (guarded-up env target force db env.busy env.server_cert (subst (λ r. r.1 ≡ none) same h))

up-is_bootstrapped :
    (fault : Option String) (db : Database)
    → row_up db.lifecycle ≡ true
    → ceph_is_bootstrapped none fault db ≡ ok true
unfolding ceph_is_bootstrapped in_transaction get_cluster_lifecycle
up-is_bootstrapped fault db h = ground arith

-- The guard's answer as the placement engine takes it.
abbrev pub answer_of : Result BootstrapError Bool → Result RemoteError Bool
answer_of (ok b) = ok b
answer_of (err e) = err (record { status = 0; text = "failed to check the bootstrap" })

unknown-ne :
    (known : List String) (ms : Members) → first_unknown known ms ≢ some placement_not_bootstrapped
unfolding first_unknown
unknown-ne known [] h = cc
unknown-ne known ((name, mp) ∷ rest) h = ground (arith, unknown-ne known rest)

known-ne :
    (r : Result RemoteError (List String)) (ms : Members)
    → check_known r ms ≢ some placement_not_bootstrapped
unfolding check_known
known-ne (err e) ms h = cc
known-ne (ok known) ms h = unknown-ne known ms h

members-ne :
    (cluster : Cluster) (ms : Members)
    → cluster.bootstrapped ≡ ok true
    → check_members cluster ms ≢ some placement_not_bootstrapped
unfolding check_members check_bootstrapped
members-ne cluster [] up h = cc
members-ne cluster (m ∷ ms) up h = known-ne cluster.member_names (m ∷ ms) (
    subst
      (λ b. check_bootstrapped b cluster.member_names (m ∷ ms) ≡ some placement_not_bootstrapped) up
      h)

validate-ne :
    (cluster : Cluster) (policy : PlacementPolicy)
    → cluster.bootstrapped ≡ ok true
    → validate_placement cluster policy ≢ some placement_not_bootstrapped
unfolding validate_placement
validate-ne cluster policy up h = ground (arith, members-ne cluster policy.members)

-- After a BootstrapCeph that succeeds, the lifecycle row says bootstrapped, the guard of the
-- placement engine reads so whatever happens to its second read, and no policy is refused because
-- Ceph is not bootstrapped.
pub bootstrap-opens_placement :
    (env : Env) (target : String) (force : Bool) (db : Database) (fault : Option String)
    (cluster : Cluster) (policy : PlacementPolicy)
    → (bootstrap_ceph env target force db).1 ≡ none
    → let guard = ceph_is_bootstrapped none fault (bootstrap_ceph env target force db).0 in
      (row_up (bootstrap_ceph env target force db).0.lifecycle ≡ true)
      × (guard ≡ ok true)
      × (validate_placement (record cluster { bootstrapped = answer_of guard }) policy
          ≢ some placement_not_bootstrapped)
bootstrap-opens_placement env target force db fault cluster policy h =
    let up = bootstrap-up env target force db h in
    let open_guard = up-is_bootstrapped fault (bootstrap_ceph env target force db).0 up in
    (
      up,
      open_guard,
      validate-ne
          (record cluster {
            bootstrapped =
                answer_of (ceph_is_bootstrapped none fault (bootstrap_ceph env target force db).0);
          })
          policy (ap answer_of open_guard),
    )
