-- ===== src/Operations.antt =====
-- The operations of microceph/ceph/operations.go, their runner, and the count of services of
-- microceph/ceph/remove.go.
pub mod Maintenance
pub mod Quorum
pub mod Settled
pub mod Removal
pub mod Leaves
use microceph.Prelude.{
  ℕ, ◌+◌, ◌/◌, String, List, [], ◌∷◌, ◌++◌, map, Bool, true, false, not, ◌||◌, Option, none, some,
  ltb, ◌==◌, string_eq, Result, ok, err, ◌>>=◌, if◌then◌else◌,
}

-- A row of the services table, or an active service that Ceph reports.
pub record Service : Type 0 where
  pub service : String
  pub location : String

pub record ConfiguredDisk : Type 0 where
  pub osd : ℕ
  pub location : String

-- What the operations change: the cluster's noout flag and the OSD service of the node.
pub record Node : Type 0 where
  pub noout : Bool
  pub osds_up : Bool

-- The database, and what the ceph and snap commands answer; `none` is a success of a command.
pub record Env : Type 0 where
  pub disks : Result String (List ConfiguredDisk)
  pub services : Result String (List Service)
  pub ok_to_stop : List ℕ → Bool
  pub active_mons : Result String (List String)
  pub active_mgrs : Result String (List String)
  pub active_mdss : Result String (List String)
  pub set_noout : Bool → Option String
  pub osd_dump : Option String
  pub set_osds : Bool → Option String

pub data Operation : Type 0 where
  check_osd_ok_to_stop check_non_osd_svc_enough set_noout assert_noout_set : Operation
  assert_noout_unset stop_osd start_osd unset_noout : Operation

-- GetName.
unfoldable pub get_name : Operation → String
get_name check_osd_ok_to_stop = "check-osd-ok-to-stop-ops"
get_name check_non_osd_svc_enough = "check-non-osd-svc-enough-ops"
get_name set_noout = "set-noout-ops"
get_name assert_noout_set = "assert-noout-flag-set-ops"
get_name assert_noout_unset = "assert-noout-flag-unset-ops"
get_name stop_osd = "stop-osd-ops"
get_name start_osd = "start-osd-ops"
get_name unset_noout = "unset-noout-ops"

pub data OperationError : Type 0 where
  not_ok_to_stop : List ℕ → OperationError
  insufficient : String → OperationError
  noout_is_set noout_is_unset : OperationError
  command_failed : String → OperationError

-- The OSDs of getOsds.
unfoldable pub osds_at : String → List ConfiguredDisk → List ℕ
osds_at name [] = []
osds_at name (d ∷ ds) =
    let rest = osds_at name ds in if d.location == name then d.osd ∷ rest else rest

-- An entry of foundMap: how many services of a kind stand on other nodes.
unfoldable pub found : String → String → List Service → ℕ
found kind name [] = 0
found kind name (s ∷ ss) =
    (if not (s.location == name) then (if s.service == kind then 1 else 0) else 0)
    + found kind name ss

-- EnsureNonOsdSvcEnough.
unfoldable pub ensure_non_osd_svc_enough : List Service → String → ℕ → ℕ → ℕ → Option OperationError
unfolding found
ensure_non_osd_svc_enough services name min_mon min_mgr min_mds =
    if ltb (found "mon" name services) min_mon
      || ltb (found "mgr" name services) min_mgr
      || ltb (found "mds" name services) min_mds
    then some (insufficient name)
    else none

unfoldable pub total_mons : List Service → ℕ
total_mons [] = 0
total_mons (s ∷ ss) = (if s.service == "mon" then 1 else 0) + total_mons ss

unfoldable pub tagged : String → List String → List Service
tagged kind = map (λ location. record { service = kind; location = location })

-- The lists that CheckNonOsdSvcEnoughOps counts.
unfoldable pub active_services : List String → List String → List String → List Service
unfolding tagged
active_services mons mgrs mdss = tagged "mon" mons ++ (tagged "mgr" mgrs ++ tagged "mds" mdss)

unfoldable pub to_error : {A : Type 0} → Result String A → Result OperationError A
to_error (ok x) = ok x
to_error (err message) = err (command_failed message)

unfoldable pub operation_outcome :
    Result OperationError (Option OperationError) → Option OperationError
operation_outcome (ok o) = o
operation_outcome (err e) = some e

unfoldable pub osds_checked :
    (List ℕ → Bool) → String → Result String (List ConfiguredDisk) → Option OperationError
unfolding operation_outcome to_error osds_at
osds_checked ok_to_stop name disks = operation_outcome do
  disks ← to_error disks
  let osds = osds_at name disks
  ok (if ok_to_stop osds then none else some (not_ok_to_stop osds))

-- Run of CheckOsdOkToStopOps.
unfoldable pub check_osds : Env → String → Option OperationError
unfolding osds_checked
check_osds env name = osds_checked env.ok_to_stop name env.disks

unfoldable pub services_checked :
    String
    → Result String (List Service)
    → Result String (List String)
    → Result String (List String)
    → Result String (List String)
    → Option OperationError
unfolding operation_outcome to_error ensure_non_osd_svc_enough total_mons active_services
services_checked name services mons mgrs mdss = operation_outcome do
  services ← to_error services
  mons ← to_error mons
  mgrs ← to_error mgrs
  mdss ← to_error mdss
  ok (
      ensure_non_osd_svc_enough (active_services mons mgrs mdss) name (total_mons services / 2 + 1)
        1 1)

-- Run of CheckNonOsdSvcEnoughOps.
unfoldable pub check_services : Env → String → Option OperationError
unfolding services_checked
check_services env name =
    services_checked name env.services env.active_mons env.active_mgrs env.active_mdss

abbrev pub Ran : Type 0
Ran = Node × Option OperationError

-- A command that fails has changed nothing.
unfoldable pub commanded : Option String → Node → Node → Ran
commanded none changed node = (changed, none)
commanded (some message) changed node = (node, some (command_failed message))

-- Run of AssertNooutFlagSetOps and AssertNooutFlagUnsetOps.
unfoldable pub asserted : Bool → Option String → Node → Option OperationError
asserted wanted (some message) node = some (command_failed message)
asserted true none node = if node.noout then none else some noout_is_unset
asserted false none node = if node.noout then some noout_is_set else none

-- Run of each operation.
unfoldable pub run_operation : Env → String → Operation → Node → Ran
unfolding check_osds check_services commanded asserted
run_operation env name check_osd_ok_to_stop node = (node, check_osds env name)
run_operation env name check_non_osd_svc_enough node = (node, check_services env name)
run_operation env name set_noout node =
    commanded (env.set_noout true) (record node { noout = true }) node
run_operation env name assert_noout_set node = (node, asserted true env.osd_dump node)
run_operation env name assert_noout_unset node = (node, asserted false env.osd_dump node)
run_operation env name stop_osd node =
    commanded (env.set_osds false) (record node { osds_up = false }) node
run_operation env name start_osd node =
    commanded (env.set_osds true) (record node { osds_up = true }) node
run_operation env name unset_noout node =
    commanded (env.set_noout false) (record node { noout = false }) node

-- An entry of the results: the operation, whose name and action it shows, and its error.
pub record OperationResult : Type 0 where
  pub operation : Operation
  pub error : Option OperationError

abbrev pub Results : Type 0
Results = Node × List OperationResult

unfoldable pub with_entry : OperationResult → Results → Results
with_entry entry (node, results) = (node, entry ∷ results)

unfoldable pub stepped : Operation → Bool → (Node → Results) → Ran → Results
unfolding with_entry
stepped op force rest (node, none) =
    with_entry (record { operation = op; error = none }) (rest node)
stepped op force rest (node, some e) =
    let entry : OperationResult = record { operation = op; error = some e } in
    if force then with_entry entry (rest node) else (node, entry ∷ [])

-- RunOperations.
unfoldable pub run_operations : Env → String → List Operation → Bool → Bool → Node → Results
unfolding stepped run_operation with_entry
run_operations env name [] dry_run force node = (node, [])
run_operations env name (op ∷ ops) dry_run force node =
    let rest = λ (n : Node). run_operations env name ops dry_run force n in
    let ran = stepped op force rest (run_operation env name op node) in
    if dry_run then with_entry (record { operation = op; error = none }) (rest node) else ran
