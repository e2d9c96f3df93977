-- ===== src/Lifecycle/Rows.antt =====
-- BootstrapCeph (microceph/ceph/bootstrap_ceph.go) over config rows that an earlier bootstrap wrote,
-- whatever the daemon, the leader, the database and Ceph answer.
use microceph.Prelude.{
  String, List, Bool, true, false, Option, none, some, ◌≡◌, ◌⊎◌, inl, inr, refl, sym, subst, Result,
  ok, err, arith,
}
use microceph.Lifecycle.{
  bootstrapped, is_bootstrapped, empty, ClusterLifecycle, Database, BootstrapError,
  already_in_progress, no_server_certificate, members_unlisted, unknown_target, partial_bootstrap,
  database_failed, unmarked, in_transaction, set_cluster_lifecycle, config_indicates_bootstrapped,
}
use microceph.Lifecycle.Bootstrap.{
  Env, is_stale, lifecycle_of, mark_recovered, healed, verified, recover_from,
  recover_stale_bootstrapped_lifecycle, atomic_start, unless_recovered, contains, known_target,
  atomic_start_bootstrap, after_start, bootstrap_ceph,
}
use microceph.Lifecycle.Existing.{IsServed}

-- The outcomes of a call over existing config rows. An error changes nothing, and is a partial
-- bootstrap, where the row is not marked and Ceph does not answer, or that of a call that is not
-- served. A success is that of a row that was marked, or of one that is marked since Ceph answers.
abbrev pub Allowed :
    Env → String → Database → ClusterLifecycle → Database × Option BootstrapError → Type 0
Allowed env target db lc (db', some e) =
    (db' ≡ db)
    × (((e ≡ partial_bootstrap)
          × (is_bootstrapped lc.ceph_bootstrap_state ≡ false)
          × (env.reachable ≡ false))
        ⊎ (IsServed env target → ⊥))
Allowed env target db lc (db', none) =
    ((is_bootstrapped lc.ceph_bootstrap_state ≡ true) × (db' ≡ db))
    ⊎ ((env.reachable ≡ true)
        × (db' ≡ record db { lifecycle = some (lifecycle_of bootstrapped target empty) }))

module _ (env : Env) (target : String) (force : Bool) (db : Database) (lc : ClusterLifecycle)
    (row : db.lifecycle ≡ some lc) (config : config_indicates_bootstrapped db ≡ true) where
  abbrev ResultIs : Database × Option BootstrapError → Type 0
  ResultIs r = bootstrap_ceph env target force db ≡ r

  abbrev Holds : Type 0
  Holds = Allowed env target db lc (bootstrap_ceph env target force db)

  ends : (r : Database × Option BootstrapError) → ResultIs r → Allowed env target db lc r → Holds
  ends r e h = subst (Allowed env target db lc) (sym e) h

  -- Past the tests: by the row, Ceph and the transactions.
  recovered :
      (names : List String) (marked reachable : Bool) (check start heal : Option String)
      → env.busy ≡ false
      → env.server_cert ≡ true
      → env.members ≡ ok names
      → contains target names ≡ true
      → is_bootstrapped lc.ceph_bootstrap_state ≡ marked
      → env.reachable ≡ reachable
      → env.check_fault ≡ check
      → env.start_fault ≡ start
      → env.heal_fault ≡ heal
      → Holds
  unfolding bootstrap_ceph atomic_start_bootstrap known_target recover_stale_bootstrapped_lifecycle
      after_start unless_recovered recover_from in_transaction is_stale verified healed
      mark_recovered set_cluster_lifecycle atomic_start
  recovered names marked reachable (some f) start heal b c m k i r e s h =
      ends (db, some (database_failed f)) (ground arith)
        (refl, inr (λ (q : IsServed env target). let no = q.checks in cc))
  recovered names true reachable none (some f) heal b c m k i r e s h =
      ends (db, some (database_failed f)) (ground arith)
        (refl, inr (λ (q : IsServed env target). let no = q.starts in cc))
  recovered names true reachable none none heal b c m k i r e s h =
      ends (db, none) (ground arith) (inl (i, refl))
  recovered names false false none start heal b c m k i r e s h =
      ends (db, some partial_bootstrap) (ground arith) (refl, inl (refl, i, r))
  recovered names false true none start (some f) b c m k i r e s h =
      ends (db, some (unmarked (database_failed f))) (ground arith)
        (refl, inr (λ (q : IsServed env target). let no = q.heals in cc))
  recovered names false true none start none b c m k i r e s h =
      ends (record db { lifecycle = some (lifecycle_of bootstrapped target empty) }, none)
        (ground arith) (inr (r, refl))

  tested :
      (busy cert known : Bool) (names : List String)
      → env.busy ≡ busy
      → env.server_cert ≡ cert
      → env.members ≡ ok names
      → contains target names ≡ known
      → Holds
  unfolding bootstrap_ceph atomic_start_bootstrap known_target after_start
  tested true cert known names b c m k =
      ends (db, some already_in_progress) (ground arith)
        (refl, inr (λ (q : IsServed env target). let no = q.free in cc))
  tested false false known names b c m k =
      ends (db, some no_server_certificate) (ground arith)
        (refl, inr (λ (q : IsServed env target). let no = q.certified in cc))
  tested false true false names b c m k =
      ends (db, some unknown_target) (ground arith)
        (refl, inr (λ (q : IsServed env target). let l = q.listed in let no = q.known in cc))
  tested false true true names b c m k =
      recovered names (is_bootstrapped lc.ceph_bootstrap_state) env.reachable env.check_fault
        env.start_fault env.heal_fault b c m k refl refl refl refl refl

  members_answered :
      (busy cert : Bool) (members : Result String (List String))
      → env.busy ≡ busy
      → env.server_cert ≡ cert
      → env.members ≡ members
      → Holds
  unfolding bootstrap_ceph atomic_start_bootstrap known_target after_start
  members_answered busy cert (ok names) b c m =
      tested busy cert (contains target names) names b c m refl
  members_answered true cert (err x) b c m =
      ends (db, some already_in_progress) (ground arith)
        (refl, inr (λ (q : IsServed env target). let no = q.free in cc))
  members_answered false false (err x) b c m =
      ends (db, some no_server_certificate) (ground arith)
        (refl, inr (λ (q : IsServed env target). let no = q.certified in cc))
  members_answered false true (err x) b c m =
      ends (db, some (members_unlisted x)) (ground arith)
        (refl, inr (λ (q : IsServed env target). let no = q.listed in cc))

unrun :
    (env : Env) (target : String) (force : Bool) (db : Database) (lc : ClusterLifecycle)
    (steps : Database → Database × Option BootstrapError)
    → db.lifecycle ≡ some lc
    → config_indicates_bootstrapped db ≡ true
    → bootstrap_ceph (record env { steps = steps }) target force db
      ≡ bootstrap_ceph env target force db
unfolding bootstrap_ceph atomic_start_bootstrap known_target recover_stale_bootstrapped_lifecycle
    after_start unless_recovered recover_from in_transaction is_stale verified healed mark_recovered
    set_cluster_lifecycle atomic_start
unrun env target force db lc steps row config = ground arith

-- Over both config rows and any lifecycle row, forced or not, and whatever the surroundings: a call
-- that fails has changed nothing, and where it passes its tests and its transactions succeed
-- (IsServed), it fails only with a partial bootstrap, because the row is not marked bootstrapped and
-- Ceph does not answer; a call that succeeds either found the row marked and changed nothing, or has
-- marked it because Ceph answers, which leaves the config rows. The outcome is the same whatever the
-- bootstrap steps would do, since they are not run.
pub bootstrap-existing :
    (env : Env) (target : String) (force : Bool) (db : Database) (lc : ClusterLifecycle)
    (steps : Database → Database × Option BootstrapError)
    → db.lifecycle ≡ some lc
    → config_indicates_bootstrapped db ≡ true
    → Allowed env target db lc (bootstrap_ceph env target force db)
      × (bootstrap_ceph (record env { steps = steps }) target force db
          ≡ bootstrap_ceph env target force db)
bootstrap-existing env target force db lc steps row config = (
  members_answered env target force db lc row config env.busy env.server_cert env.members refl refl
      refl,
  unrun env target force db lc steps row config,
)
