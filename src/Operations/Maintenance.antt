-- ===== src/Operations/Maintenance.antt =====
-- Maintenance.Enter and Maintenance.Exit (microceph/ceph/maintenance.go) and their handler
-- cmdPutMaintenance (microceph/api/ops_maintenance.go).
use microceph.Prelude.{
  String, List, [], ◌∷◌, ◌++◌, Bool, true, false, not, ◌&&◌, ◌||◌, Option, none, some, ◌==◌,
  string_eq, if◌then◌else◌,
}
use microceph.Operations.{
  Node, Env, Operation, check_osd_ok_to_stop, check_non_osd_svc_enough, assert_noout_set,
  assert_noout_unset, stop_osd, start_osd, unset_noout, OperationResult, Results, run_operations,
}

pub record MaintenanceRequest : Type 0 where
  pub status : String
  pub dry_run : Bool
  pub check_only : Bool
  pub ignore_check : Bool
  pub force : Bool
  pub set_noout : Bool
  pub stop_osds : Bool

-- The preflight checks of Enter.
abbrev pub preflight_checks : List Operation
preflight_checks = check_osd_ok_to_stop ∷ check_non_osd_svc_enough ∷ []

-- The main operations of Enter.
unfoldable pub enter_operations : Bool → Bool → List Operation
enter_operations noout stop =
    (if noout then Operation.set_noout ∷ assert_noout_set ∷ [] else [])
    ++ (if stop then stop_osd ∷ [] else [])

-- The main operations of Exit.
abbrev pub exit_operations : List Operation
exit_operations = unset_noout ∷ assert_noout_unset ∷ start_osd ∷ []

-- Whether a result carries an error.
unfoldable pub any_error : List OperationResult → Bool
any_error [] = false
any_error (r ∷ rs) = (elim r.error [ none ↦ false | some e ↦ true ]) || any_error rs

unfoldable pub append_results : List OperationResult → Results → Results
append_results earlier (node, later) = (node, earlier ++ later)

-- The main operations after the preflight checks, unless one of these failed and is not forced.
unfoldable pub after_preflight : Bool → (Node → Results) → Results → Results
unfolding any_error append_results
after_preflight force main (node, results) =
    let rest = append_results results (main node) in
    if any_error results && not force then (node, results) else rest

-- The part that Enter and Exit share; `none` is the refusal of contradictory flags.
unfoldable pub execute :
    MaintenanceRequest
    → Bool
    → (Node → Results)
    → (Node → Results)
    → Node
    → Node × Option (List OperationResult)
unfolding after_preflight
execute req force preflight main node =
    if req.check_only && req.ignore_check
    then (node, none)
    else let r =
        (if req.check_only
          then preflight node
          else if req.ignore_check
          then main node
          else after_preflight force main (preflight node)) in
      (r.0, some r.1)

-- Maintenance.Enter.
unfoldable pub enter :
    Env → String → MaintenanceRequest → Node → Node × Option (List OperationResult)
unfolding execute enter_operations run_operations
enter env name req =
    execute req req.force (run_operations env name preflight_checks req.dry_run false)
      (run_operations env name (enter_operations req.set_noout req.stop_osds) req.dry_run false)

-- Maintenance.Exit, which has no preflight checks.
unfoldable pub exit :
    Env → String → MaintenanceRequest → Node → Node × Option (List OperationResult)
unfolding execute run_operations
exit env name req =
    execute req false (run_operations env name [] req.dry_run false)
      (run_operations env name exit_operations req.dry_run false)

-- BadRequest for a refused request, and the two forms of maintenanceResponse with their content.
pub data MaintenanceResponse : Type 0 where
  refused_request : MaintenanceResponse
  success failure : List OperationResult → MaintenanceResponse

unfoldable pub maintenance_response :
    Bool → Node × Option (List OperationResult) → Node × MaintenanceResponse
unfolding any_error
maintenance_response force (node, none) = (node, refused_request)
maintenance_response force (node, some results) =
    (node, if any_error results && not force then failure results else success results)

-- cmdPutMaintenance, for a request that can be decoded.
unfoldable pub cmd_put_maintenance :
    Env → String → MaintenanceRequest → Node → Node × MaintenanceResponse
unfolding enter exit maintenance_response
cmd_put_maintenance env name req node =
    let entered = maintenance_response req.force (enter env name req node) in
    let exited = maintenance_response req.force (exit env name req node) in
    if req.status == "maintenance"
    then entered
    else if req.status == "non-maintenance"
    then exited
    else (node, refused_request)
