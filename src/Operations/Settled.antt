-- ===== src/Operations/Settled.antt =====
-- The state in which a successful request of microceph/api/ops_maintenance.go leaves the node.
use microceph.Prelude.{
  String, List, [], ◌∷◌, ◌++◌, Bool, true, false, not, ◌&&◌, ◌||◌, Option, none, some, ◌≡◌, refl,
  ap, ◌∙◌, subst, sym, ◌==◌, string_eq, arith, if◌then◌else◌,
}
use microceph.Operations.{
  Node, Env, OperationResult, Results, run_operation, with_entry, stepped, run_operations,
}
use microceph.Operations.Maintenance.{
  MaintenanceRequest, preflight_checks, enter_operations, exit_operations, any_error,
  append_results, after_preflight, execute, enter, exit, maintenance_response, success,
  refused_request, MaintenanceResponse, cmd_put_maintenance,
}
use microceph.Operations.Quorum.{preflight-same}

any_error-append :
    (xs ys : List OperationResult) → any_error (xs ++ ys) ≡ (any_error xs || any_error ys)
unfolding any_error
any_error-append [] ys = refl
any_error-append (x ∷ xs) ys = ground (arith, any_error-append xs ys)

-- What the request asks for.
abbrev entered_node : MaintenanceRequest → Node → Node
entered_node req node = record {
  noout = node.noout || req.set_noout;
  osds_up = node.osds_up && not req.stop_osds;
}

abbrev pub settled : MaintenanceRequest → Node → Node
settled req node =
    if req.status == "maintenance"
    then entered_node req node
    else record { noout = false; osds_up = true }

main-entered :
    (env : Env) (name : String) (noout stop : Bool) (node : Node)
    → any_error (run_operations env name (enter_operations noout stop) false false node).1 ≡ false
    → (run_operations env name (enter_operations noout stop) false false node).0
      ≡ record { noout = node.noout || noout; osds_up = node.osds_up && not stop }
unfolding run_operations stepped with_entry run_operation any_error enter_operations
main-entered env name true true node h = ground arith
main-entered env name true false node h = ground arith
main-entered env name false true node h = ground arith
main-entered env name false false node h = ground arith

main-exited :
    (env : Env) (name : String) (node : Node)
    → any_error (run_operations env name exit_operations false false node).1 ≡ false
    → (run_operations env name exit_operations false false node).0
      ≡ record { noout = false; osds_up = true }
unfolding run_operations stepped with_entry run_operation any_error
main-exited env name node h = ground arith

-- The response and the state of the parts together.
abbrev Quiet : MaintenanceRequest → Bool → (Node → Results) → (Node → Results) → Node → Type 0
Quiet req force preflight main node =
    ((execute req force preflight main node).0 ≡ (main node).0) × (any_error (main node).1 ≡ false)

execute-Quiet :
    (req : MaintenanceRequest) (force : Bool) (preflight main : Node → Results) (node : Node)
    (results : List OperationResult) (ignore failed : Bool)
    → (preflight node).0 ≡ node
    → req.check_only ≡ false
    → req.ignore_check ≡ ignore
    → any_error (preflight node).1 ≡ failed
    → (execute req force preflight main node).1 ≡ some results
    → any_error results ≡ false
    → Quiet req force preflight main node
unfolding execute after_preflight append_results
execute-Quiet req force preflight main node results true failed same o i f h q =
    (ground arith, ground arith)
execute-Quiet req true preflight main node results false failed same o i f h q =
    (ground arith, ground (arith, any_error-append (preflight node).1 (main node).1))
execute-Quiet req false preflight main node results false failed same o i f h q = (
  ground (arith, any_error-append (preflight node).1 (main node).1),
  ground (arith, any_error-append (preflight node).1 (main node).1),
)

module _ (env : Env) (name : String) (req : MaintenanceRequest) (node : Node) where
  -- Both, with the flag for a dry run apart.
  abbrev enter_with : Bool → Node × Option (List OperationResult)
  enter_with dry =
      execute req req.force (run_operations env name preflight_checks dry false)
        (run_operations env name (enter_operations req.set_noout req.stop_osds) dry false) node

  abbrev exit_with : Bool → Node × Option (List OperationResult)
  exit_with dry =
      execute req false (run_operations env name [] dry false)
        (run_operations env name exit_operations dry false) node

  enter-settled :
      (results : List OperationResult)
      → req.dry_run ≡ false
      → req.check_only ≡ false
      → (enter env name req node).1 ≡ some results
      → any_error results ≡ false
      → (enter env name req node).0 ≡ entered_node req node
  unfolding enter
  enter-settled results dry only h q =
      let (same, quiet) =
        execute-Quiet req req.force (run_operations env name preflight_checks false false)
          (run_operations env name (enter_operations req.set_noout req.stop_osds) false false) node
          results req.ignore_check
          (any_error (run_operations env name preflight_checks false false node).1)
          (preflight-same env name false node) only refl refl
          (subst (λ d. (enter_with d).1 ≡ some results) dry h) q in
      subst (λ d. (enter_with d).0 ≡ entered_node req node) (sym dry)
        (same ∙ main-entered env name req.set_noout req.stop_osds node quiet)

  exit-settled :
      (results : List OperationResult)
      → req.dry_run ≡ false
      → req.check_only ≡ false
      → (exit env name req node).1 ≡ some results
      → any_error results ≡ false
      → (exit env name req node).0 ≡ record { noout = false; osds_up = true }
  unfolding exit
  exit-settled results dry only h q =
      let (same, quiet) =
        execute-Quiet req false (run_operations env name [] false false)
          (run_operations env name exit_operations false false) node results req.ignore_check
          (any_error (run_operations env name [] false false node).1)
          (unfold run_operations in refl) only refl refl
          (subst (λ d. (exit_with d).1 ≡ some results) dry h) q in
      subst (λ d. (exit_with d).0 ≡ record { noout = false; osds_up = true }) (sym dry)
        (same ∙ main-exited env name node quiet)

responded :
    (r : Node × Option (List OperationResult)) (results : List OperationResult)
    → (maintenance_response false r).1 ≡ success results
    → (r.1 ≡ some results) × (any_error results ≡ false)
unfolding maintenance_response
responded (node, none) results h = cc
responded (node, some rs) results h = ground arith

respond-node :
    (force : Bool) (r : Node × Option (List OperationResult))
    → (maintenance_response force r).0 ≡ r.0
unfolding maintenance_response
respond-node force (node, none) = refl
respond-node force (node, some rs) = refl

-- The handler behind its tests of the status.
abbrev dispatched :
    Env → String → MaintenanceRequest → Node → Bool → Bool → Node × MaintenanceResponse
dispatched env name req node true other = maintenance_response req.force (enter env name req node)
dispatched env name req node false true = maintenance_response req.force (exit env name req node)
dispatched env name req node false false = (node, refused_request)

put-dispatched :
    (env : Env) (name : String) (req : MaintenanceRequest) (node : Node) (m n : Bool)
    → (req.status == "maintenance") ≡ m
    → (req.status == "non-maintenance") ≡ n
    → cmd_put_maintenance env name req node ≡ dispatched env name req node m n
unfolding cmd_put_maintenance
put-dispatched env name req node true n a b = rw a refl
put-dispatched env name req node false true a b = rw (a, b) refl
put-dispatched env name req node false false a b = rw (a, b) refl

dispatched-settled :
    (env : Env) (name : String) (req : MaintenanceRequest) (node : Node)
    (results : List OperationResult) (m n : Bool)
    → req.dry_run ≡ false
    → req.check_only ≡ false
    → req.force ≡ false
    → (dispatched env name req node m n).1 ≡ success results
    → (dispatched env name req node m n).0
      ≡ (if m then entered_node req node else record { noout = false; osds_up = true })
dispatched-settled env name req node results true n dry only unforced h =
    let entered = enter env name req node in
    let (some_results, quiet) =
      responded entered results
        (subst (λ f. (maintenance_response f entered).1 ≡ success results) unforced h) in
    respond-node req.force entered
    ∙ enter-settled env name req node results dry only some_results quiet
dispatched-settled env name req node results false true dry only unforced h =
    let exited = exit env name req node in
    let (some_results, quiet) =
      responded exited results
        (subst (λ f. (maintenance_response f exited).1 ≡ success results) unforced h) in
    respond-node req.force exited
    ∙ exit-settled env name req node results dry only some_results quiet
dispatched-settled env name req node results false false dry only unforced h = cc

-- An unforced request for maintenance or its end, neither a dry run nor only a check, that succeeds
-- leaves the node as it asks: on entry the noout flag is set and the OSDs are down where the request
-- says so, and else as before; on exit the flag is unset and the OSDs are up.
pub put-settled :
    (env : Env) (name : String) (req : MaintenanceRequest) (node : Node)
    (results : List OperationResult)
    → req.dry_run ≡ false
    → req.check_only ≡ false
    → req.force ≡ false
    → (cmd_put_maintenance env name req node).1 ≡ success results
    → (cmd_put_maintenance env name req node).0 ≡ settled req node
put-settled env name req node results dry only unforced h =
    let same =
      put-dispatched env name req node (req.status == "maintenance")
        (req.status == "non-maintenance") refl refl in
    ap (λ r. r.0) same
    ∙ dispatched-settled env name req node results (req.status == "maintenance")
        (req.status == "non-maintenance") dry only unforced (ap (λ r. r.1) (sym same) ∙ h)
