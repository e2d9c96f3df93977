-- ===== src/Tests/Bootstrap.antt =====
-- The bootstrap of Ceph on a cluster of two members.
use microceph.Prelude.{
  [], ◌∷◌, true, false, none, some, Option, ◌≡◌, ◌≢◌, refl, string_eq, ne_of_beq, ok, ◌≤◌,
}
use microceph.Placement.Errors.{not_bootstrapped as placement_not_bootstrapped}
use microceph.Placement.Apply.{validate_placement}
use microceph.Lifecycle.{
  not_bootstrapped, in_progress, bootstrapped, failed, empty, failure, Database, BootstrapError,
  config_exists, command_failed, config_indicates_bootstrapped, ceph_is_bootstrapped,
}
use microceph.Lifecycle.Bootstrap.{
  Env, lifecycle_of, atomic_start, atomic_start_bootstrap, bootstrap_ceph, contains,
}
use microceph.Placement.Put.{smart_error}
use microceph.Lifecycle.Handler.{request, cmd_ceph_bootstrap_put}
use microceph.Lifecycle.Steps.{Parts, prod_bootstrap_ceph_steps}
use microceph.Lifecycle.Outcome.{row_up, answer_of, bootstrap-opens_placement}
use microceph.Lifecycle.Existing.{IsServed, half_way, retry-half_way}
use microceph.Lifecycle.Rows.{Allowed, bootstrap-existing}
use microceph.Lifecycle.Responses.{refuses_itself, put-refused}
use microceph.Lifecycle.Exclusion.{Stays, runners, closed_row, Reach-one_runner}
use microceph.Lifecycle.Interleaving.{System, idle, ready, running, claim, acts, Reach, here, next}
use microceph.Lifecycle.Refines.{member_at, bootstrap-Reach}
use microceph.Tests.Cluster.{policy}
use microceph.Tests.Handlers.{cluster}

-- Everything goes well.
abbrev parts : Parts
parts = record {
  server_cert = true;
  prepared = none;
  fsid = "f5e1";
  admin_key = "AQBx";
  populate_fault = none;
  brought_up = none;
  mark_fault = none;
}

abbrev half_way_parts : Parts
half_way_parts = record parts { brought_up = some "mon failed" }

abbrev env : Env
env = record {
  busy = false;
  server_cert = true;
  members = ok ("a" ∷ "b" ∷ []);
  check_fault = none;
  heal_fault = none;
  start_fault = none;
  record_fault = none;
  reachable = true;
  steps = prod_bootstrap_ceph_steps parts;
}

abbrev half_way_env : Env
half_way_env = record env { steps = prod_bootstrap_ceph_steps half_way_parts }

abbrev fresh : Database
fresh = record {
  lifecycle = some (lifecycle_of not_bootstrapped "" empty);
  fsid = none;
  admin_keyring = none;
}

knows-b : contains "b" ("a" ∷ "b" ∷ []) ≡ true
unfolding contains
knows-b = refl

half_way-IsServed : IsServed half_way_env "b"
half_way-IsServed = record {
  names = "a" ∷ "b" ∷ [];
  free = refl;
  certified = refl;
  listed = refl;
  known = knows-b;
  checks = refl;
  heals = refl;
  starts = refl;
  records = refl;
}

env-IsServed : IsServed env "b"
env-IsServed = record {
  names = "a" ∷ "b" ∷ [];
  free = refl;
  certified = refl;
  listed = refl;
  known = knows-b;
  checks = refl;
  heals = refl;
  starts = refl;
  records = refl;
}

-- The first bootstrap on `b`.
first_run : (bootstrap_ceph env "b" false fresh).1 ≡ none
unfolding bootstrap_ceph atomic_start_bootstrap prod_bootstrap_ceph_steps
first_run = refl

bootstrap-opens_placement_example :
    let guard = ceph_is_bootstrapped none (some "busy") (bootstrap_ceph env "b" false fresh).0 in
    (row_up (bootstrap_ceph env "b" false fresh).0.lifecycle ≡ true)
    × (guard ≡ ok true)
    × (validate_placement (record cluster { bootstrapped = answer_of guard }) policy
        ≢ some placement_not_bootstrapped)
bootstrap-opens_placement_example =
    bootstrap-opens_placement env "b" false fresh (some "busy") cluster policy first_run

-- The lifecycle row says failed beside config rows.
abbrev stale : Database
stale = half_way half_way_parts "mon failed" "b"

stale_config : config_indicates_bootstrapped stale ≡ true
unfolding config_indicates_bootstrapped
stale_config = refl

-- Steps that would write another FSID.
abbrev other_steps : Database → Database × Option BootstrapError
other_steps db = (record db { fsid = some "other" }, none)

bootstrap-existing_example :
    Allowed env "b" stale
      (lifecycle_of failed "b" (failure (command_failed "mon failed")))
      (bootstrap_ceph env "b" true stale)
    × (bootstrap_ceph (record env { steps = other_steps }) "b" true stale
        ≡ bootstrap_ceph env "b" true stale)
bootstrap-existing_example =
    bootstrap-existing env "b" true stale
      (lifecycle_of failed "b" (failure (command_failed "mon failed"))) other_steps refl
      stale_config

retry-half_way_example :
    ((bootstrap_ceph half_way_env "b" false fresh).1 ≡ some (command_failed "mon failed"))
    × (bootstrap_ceph env "b" true (bootstrap_ceph half_way_env "b" false fresh).0
        ≡ (record stale { lifecycle = some (lifecycle_of bootstrapped "b" empty) }, none))
retry-half_way_example =
    retry-half_way half_way_env env half_way_parts "mon failed" "b" "b" true fresh
      (lifecycle_of not_bootstrapped "" empty) half_way-IsServed env-IsServed refl
      (record { certified = refl; prepares = refl; populates = refl; fails = refl })
      (ne_of_beq "f5e1" "" refl) (ne_of_beq "AQBx" "" refl) refl refl refl refl

-- Another member runs its steps, and Ceph does not answer on `b`.
abbrev busy_env : Env
busy_env = record env { reachable = false }

abbrev held : Database
held = record fresh { lifecycle = some (lifecycle_of in_progress "a" empty) }

held_answers :
    refuses_itself
      (cmd_ceph_bootstrap_put busy_env "b" ""
        (request (record { target = "b"; force = false }))
        held).1
    ≡ true
unfolding cmd_ceph_bootstrap_put bootstrap_ceph atomic_start_bootstrap
held_answers = refl

put-refused_example :
    (cmd_ceph_bootstrap_put busy_env "b" ""
      (request (record { target = "b"; force = false }))
      held).0
    ≡ held
put-refused_example =
    put-refused busy_env parts "b" "" (request (record { target = "b"; force = false })) held refl
      held_answers

bootstrap-Reach_example :
    Reach
      (member_at (running ∷ []) [] held idle)
      (member_at (running ∷ []) [] (bootstrap_ceph busy_env "b" false held).0 idle)
bootstrap-Reach_example = bootstrap-Reach busy_env parts "b" held (running ∷ []) [] refl

-- Both members have checked; `a` claims the row.
abbrev both_ready : System
both_ready = record { database = fresh; phases = ready ∷ ready ∷ [] }

a_runs : Reach both_ready (record { database = held; phases = running ∷ ready ∷ [] })
unfolding atomic_start
a_runs = next here (acts [] (ready ∷ []) (claim fresh none "a"))

b_refused : Reach both_ready (record { database = held; phases = running ∷ idle ∷ [] })
unfolding atomic_start
b_refused = next a_runs (acts (running ∷ []) [] (claim held none "b"))

none_run : runners both_ready.phases ≡ 0
unfolding runners
none_run = refl

Reach-one_runner_example :
    (runners (running ∷ idle ∷ []) ≤ 1)
    × (runners (running ∷ idle ∷ []) ≤ closed_row held.lifecycle)
    × Stays fresh.fsid held.fsid
Reach-one_runner_example = Reach-one_runner {s = both_ready} none_run b_refused

-- An FSID without a keyring: the steps find a config row, and the error that goes through SmartError
-- leaves the row failed.
abbrev half_config : Database
half_config = record fresh { fsid = some "f5e1" }

left_failed :
    cmd_ceph_bootstrap_put env "b" "" (request (record { target = "b"; force = false })) half_config
    ≡ (
      record half_config { lifecycle = some (lifecycle_of failed "b" (failure config_exists)) },
      smart_error,
    )
unfolding cmd_ceph_bootstrap_put bootstrap_ceph atomic_start_bootstrap prod_bootstrap_ceph_steps
left_failed = refl
