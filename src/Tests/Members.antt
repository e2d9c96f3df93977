-- ===== src/Tests/Members.antt =====
-- Maintenance and removal of the node `a` of a cluster of five.
use microceph.Prelude.{
  ◌≤◌, List, [], ◌∷◌, true, false, none, ◌≡◌, ◌≢◌, ◌⊎◌, refl, ap, sym, ◌∙◌, string_eq, nat_eq, All,
  ok,
}
use microceph.Operations
use microceph.Operations.{
  Service, ConfiguredDisk, Node, Env, OperationResult, osds_at, found, ensure_non_osd_svc_enough,
  run_operation, run_operations,
}
use microceph.Operations.Maintenance.{
  MaintenanceRequest, enter_operations, enter, cmd_put_maintenance, success,
}
use microceph.Operations.Quorum.{IsSafe, enter-changes}
use microceph.Operations.Settled.{settled, put-settled}
use microceph.Operations.Removal.{Cluster, remove_node}
use microceph.Operations.Leaves.{remove_node-leaves}

abbrev services : List Service
services =
    record { service = "mon"; location = "a" }
    ∷ record { service = "mon"; location = "b" }
    ∷ record { service = "mgr"; location = "b" }
    ∷ record { service = "mds"; location = "c" }
    ∷ record { service = "mon"; location = "c" }
    ∷ record { service = "mon"; location = "d" }
    ∷ record { service = "mds"; location = "a" }
    ∷ []

-- osd.1 on `a` may stop, and all commands succeed.
abbrev env : Env
env = record {
  disks = ok (record { osd = 1; location = "a" } ∷ record { osd = 2; location = "b" } ∷ []);
  services = ok services;
  ok_to_stop = λ osds. elim osds [ x ∷ [] ↦ true | _ ↦ false ];
  active_mons = ok ("a" ∷ "b" ∷ "c" ∷ "d" ∷ []);
  active_mgrs = ok ("b" ∷ []);
  active_mdss = ok ("a" ∷ "c" ∷ []);
  set_noout = λ _. none;
  osd_dump = none;
  set_osds = λ _. none;
}

abbrev request : MaintenanceRequest
request = record {
  status = "maintenance";
  dry_run = false;
  check_only = false;
  ignore_check = false;
  force = false;
  set_noout = true;
  stop_osds = true;
}

abbrev node : Node
node = record { noout = false; osds_up = true }

entered_a : (enter env "a" request node).0 ≡ record { noout = true; osds_up = false }
unfolding enter run_operation run_operations enter_operations osds_at
entered_a = refl

entered_ne : (enter env "a" request node).0 ≢ node
entered_ne e = let bad : true ≡ false = ap (λ (n : Node). n.noout) (sym entered_a ∙ e) in cc

enter-changes_example :
    (request.dry_run ≡ false)
    × (request.check_only ≡ false)
    × ((request.ignore_check ≡ true) ⊎ ((request.force ≡ true) ⊎ IsSafe env "a"))
enter-changes_example = enter-changes env "a" request node entered_ne

abbrev entry : Operations.Operation → OperationResult
entry op = record { operation = op; error = none }

abbrev results : List OperationResult
results =
    entry Operations.check_osd_ok_to_stop
    ∷ entry Operations.check_non_osd_svc_enough
    ∷ entry Operations.Operation.set_noout
    ∷ entry Operations.assert_noout_set
    ∷ entry Operations.stop_osd
    ∷ []

answered_a : (cmd_put_maintenance env "a" request node).1 ≡ success results
unfolding cmd_put_maintenance run_operation run_operations enter_operations osds_at
answered_a = refl

put-settled_example : (cmd_put_maintenance env "a" request node).0 ≡ settled request node
put-settled_example = put-settled env "a" request node results refl refl refl answered_a

abbrev cluster : Cluster
cluster = record {
  members = ok ("a" ∷ "b" ∷ "c" ∷ "d" ∷ []);
  disks = ok (record { osd = 2; location = "b" } ∷ []);
  first_read = none;
  second_read = none;
  deletion = λ _. none;
}

removed_a : (remove_node cluster "a" false services).1 ≡ none
unfolding remove_node
removed_a = refl

remove_node-leaves_example :
    All (λ r. r.location ≢ "a") (remove_node cluster "a" false services).0
    × (3 ≤ found "mon" "a" (remove_node cluster "a" false services).0)
    × (1 ≤ found "mgr" "a" (remove_node cluster "a" false services).0)
    × (1 ≤ found "mds" "a" (remove_node cluster "a" false services).0)
remove_node-leaves_example = remove_node-leaves cluster "a" services removed_a
