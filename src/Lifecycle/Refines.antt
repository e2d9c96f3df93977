-- ===== src/Lifecycle/Refines.antt =====
-- BootstrapCeph of microceph/ceph/bootstrap_ceph.go, run as a whole, as a sequence of the
-- transactions of one member.
use microceph.Prelude.{
  String, List, ◌∷◌, ◌++◌, Bool, true, false, Option, none, some, ◌≡◌, refl, Bool-cases, inl, inr,
  subst, sym, Result, ok, err,
}
use microceph.Lifecycle.{Database, BootstrapError, in_transaction}
use microceph.Lifecycle.Bootstrap.{
  Env, is_stale, mark_recovered, healed, verified, recover_from,
  recover_stale_bootstrapped_lifecycle, atomic_start, unless_recovered, contains, known_target,
  atomic_start_bootstrap, record_result, concluded, after_steps, after_start, bootstrap_ceph,
}
use microceph.Lifecycle.Steps.{
  Parts, populate_bootstrap_database, bring_up, after_populate, prepare, prod_bootstrap_ceph_steps,
}
use microceph.Lifecycle.Interleaving.{
  Phase, idle, verifying, running, System, after_check, after_claim, check, unreachable, heal,
  claim, populate, mark, conclude, acts, Reach, here, next,
}

-- One member in a phase, among others.
abbrev pub member_at : List Phase → List Phase → Database → Phase → System
member_at before after db p = record { database = db; phases = before ++ p ∷ after }

concluded-database :
    (outcome : Option BootstrapError) (r : Database × Result BootstrapError (Unit {0}))
    → (concluded outcome r).0 ≡ r.0
unfolding concluded
concluded-database outcome (db, ok u) = refl
concluded-database none (db, err e) = refl
concluded-database (some f) (db, err e) = refl

module _ (before after : List Phase) (s : System) where
  abbrev Gets : Database → Phase → Type 0
  Gets db p = Reach s (member_at before after db p)

  up-Reach :
      (parts : Parts) (o : Option String) (db : Database)
      → Gets db running
      → Gets (bring_up parts o db).0 running
  unfolding bring_up
  up-Reach parts (some f) db h = h
  up-Reach parts none db h = next h (acts before after (mark db parts.server_cert parts.mark_fault))

  populated-Reach :
      (parts : Parts) (r : Database × Result BootstrapError (Unit {0}))
      → Gets r.0 running
      → Gets (after_populate parts r).0 running
  unfolding after_populate
  populated-Reach parts (db, err e) h = h
  populated-Reach parts (db, ok u) h = up-Reach parts parts.brought_up db h

  prepare-Reach :
      (parts : Parts) (o : Option String) (db : Database)
      → Gets db running
      → Gets (prepare parts o db).0 running
  unfolding prepare
  prepare-Reach parts (some f) db h = h
  prepare-Reach parts none db h =
      populated-Reach parts
        (populate_bootstrap_database parts.server_cert parts.populate_fault parts.fsid
          parts.admin_key db)
        (next h (
          acts before after
            (populate db parts.server_cert parts.populate_fault parts.fsid parts.admin_key)))

  module _ (env : Env) (target : String) where
    steps-Reach :
        (p : Database × Option BootstrapError)
        → Gets p.0 running
        → Gets (after_steps env target p).0 idle
    unfolding after_steps
    steps-Reach (db, outcome) h =
        subst (λ d. Gets d idle)
          (sym (concluded-database outcome (record_result env.record_fault target outcome db)))
          (next h (acts before after (conclude db env.record_fault target outcome)))

    module _ (parts : Parts) (injected : env.steps ≡ prod_bootstrap_ceph_steps parts) where
      start-Reach :
          (r : Database × Result BootstrapError Bool)
          → Gets r.0 (after_claim r.1)
          → Gets (after_start env target r).0 idle
      unfolding after_start prod_bootstrap_ceph_steps
      start-Reach (db, err e) h = h
      start-Reach (db, ok false) h = h
      start-Reach (db, ok true) h =
          rw injected (
            steps-Reach (prepare parts parts.prepared db) (prepare-Reach parts parts.prepared db h))

      healed-Reach :
          (r : Database × Result BootstrapError (Unit {0}))
          → Gets r.0 idle
          → Gets (after_start env target (unless_recovered env target false (healed r))).0 idle
      unfolding after_start unless_recovered healed
      healed-Reach (db, ok u) h = h
      healed-Reach (db, err e) h = h

      verified-Reach :
          (b : Bool) (db : Database)
          → Gets db verifying
          → Gets
              (after_start env target
                (unless_recovered env target false (verified env target b db))).0
              idle
      unfolding verified
      verified-Reach true db h =
          healed-Reach (mark_recovered env.heal_fault target db)
            (next h (acts before after (heal db env.heal_fault target)))
      verified-Reach false db h =
          unfold after_start unless_recovered in next h (acts before after (unreachable db))

      recover-Reach :
          (r : Database × Result BootstrapError Bool)
          → Gets r.0 (after_check r.1)
          → Gets
              (after_start env target
                (unless_recovered env target false (recover_from env target r))).0
              idle
      unfolding unless_recovered recover_from
      recover-Reach (db, err e) h = unfold after_start in h
      recover-Reach (db, ok false) h =
          start-Reach (atomic_start env.start_fault target false db)
            (next h (acts before after (claim db env.start_fault target)))
      recover-Reach (db, ok true) h = verified-Reach env.reachable db h

      known-Reach :
          (m : Result String (List String)) (db : Database)
          → Gets db idle
          → Gets (after_start env target (known_target env target false m db)).0 idle
      unfolding known_target recover_stale_bootstrapped_lifecycle
      known-Reach (err e) db h = unfold after_start in h
      known-Reach (ok names) db h = elim (Bool-cases (contains target names)) [
        | inl e ↦ rw e (
            recover-Reach (in_transaction env.check_fault is_stale db)
              (next h (acts before after (check db env.check_fault))))
        | inr e ↦ rw e (unfold after_start in h)
      ]

-- An unforced BootstrapCeph with the steps of the daemon, run without interruption on a member that is
-- idle, is a sequence of that member's acts and leaves it idle, whatever the database and the
-- environment answer and whatever the other members do.
pub bootstrap-Reach :
    (env : Env) (parts : Parts) (target : String) (db : Database) (before after : List Phase)
    → env.steps ≡ prod_bootstrap_ceph_steps parts
    → Reach
        (member_at before after db idle)
        (member_at before after (bootstrap_ceph env target false db).0 idle)
unfolding bootstrap_ceph atomic_start_bootstrap
bootstrap-Reach env parts target db before after injected = elim (Bool-cases env.busy) [
  | inl e ↦ rw e here
  | inr e ↦ rw e (elim (Bool-cases env.server_cert) [
    | inr c ↦ rw c here
    | inl c ↦ rw c (
        known-Reach before after (member_at before after db idle) env target parts injected
          env.members db here)
  ])
]
