-- ===== src/Operations/Quorum.antt =====
-- What Enter of microceph/ceph/maintenance.go has checked before it changes anything.
use microceph.Prelude.{
  ℕ, ◌+◌, ◌*◌, ◌/◌, ◌<◌, ◌≤◌, String, List, [], ◌∷◌, ◌++◌, Bool, true, false, none, ◌≡◌, ◌≢◌, ◌⊎◌,
  inl, inr, refl, ◌∙◌, ◌==◌, string_eq, Result, ok, err, arith, if◌then◌else◌,
}
use microceph.Operations.{
  Service, ConfiguredDisk, Node, Env, Operation, osds_at, found, ensure_non_osd_svc_enough,
  total_mons, tagged, active_services, to_error, operation_outcome, osds_checked, services_checked,
  check_osds, check_services, run_operation, OperationResult, Results, with_entry, stepped,
  run_operations,
}
use microceph.Operations.Maintenance.{
  MaintenanceRequest, preflight_checks, enter_operations, any_error, append_results,
  after_preflight, execute, enter,
}

-- How many of the members are not `name`.
unfoldable pub elsewhere : String → List String → ℕ
elsewhere name [] = 0
elsewhere name (m ∷ ms) = (if m == name then 0 else 1) + elsewhere name ms

found-append :
    (kind name : String) (xs ys : List Service)
    → found kind name (xs ++ ys) ≡ found kind name xs + found kind name ys
unfolding found
found-append kind name [] ys = omega arith
found-append kind name (s ∷ ss) ys = omega (arith, found-append kind name ss ys)

found-tagged :
    (kind name : String) (ms : List String)
    → (kind == kind) ≡ true
    → found kind name (tagged kind ms) ≡ elsewhere name ms
unfolding found tagged elsewhere
found-tagged kind name [] same = refl
found-tagged kind name (m ∷ ms) same = ground (arith, found-tagged kind name ms same)

found-tagged_other :
    (kind other name : String) (ms : List String)
    → (other == kind) ≡ false
    → found kind name (tagged other ms) ≡ 0
unfolding found tagged
found-tagged_other kind other name [] differ = refl
found-tagged_other kind other name (m ∷ ms) differ =
    ground (arith, found-tagged_other kind other name ms differ)

found-active :
    (name : String) (mons mgrs mdss : List String)
    → (found "mon" name (active_services mons mgrs mdss) ≡ elsewhere name mons)
      × (found "mgr" name (active_services mons mgrs mdss) ≡ elsewhere name mgrs)
      × (found "mds" name (active_services mons mgrs mdss) ≡ elsewhere name mdss)
unfolding active_services
found-active name mons mgrs mdss =
    let split = λ (kind : String).
      found-append kind name (tagged "mon" mons) (tagged "mgr" mgrs ++ tagged "mds" mdss) in
    let split' =
      λ (kind : String). found-append kind name (tagged "mgr" mgrs) (tagged "mds" mdss) in
    (
      omega (
        arith,
        split "mon",
        split' "mon",
        found-tagged "mon" name mons refl,
        found-tagged_other "mon" "mgr" name mgrs refl,
        found-tagged_other "mon" "mds" name mdss refl,
      ),
      omega (
        arith,
        split "mgr",
        split' "mgr",
        found-tagged "mgr" name mgrs refl,
        found-tagged_other "mgr" "mon" name mons refl,
        found-tagged_other "mgr" "mds" name mdss refl,
      ),
      omega (
        arith,
        split "mds",
        split' "mds",
        found-tagged "mds" name mdss refl,
        found-tagged_other "mds" "mon" name mons refl,
        found-tagged_other "mds" "mgr" name mgrs refl,
      ),
    )

-- Without the node, a majority of the monitors stays in quorum, and a manager and a metadata server
-- stay active.
pub record Survives (env : Env) (name : String) : Type 0 where
  pub services : List Service
  pub mons : List String
  pub mgrs : List String
  pub mdss : List String
  pub listed : env.services ≡ ok services
  pub quorum : env.active_mons ≡ ok mons
  pub managers : env.active_mgrs ≡ ok mgrs
  pub metadata : env.active_mdss ≡ ok mdss
  pub majority : total_mons services < 2 * elsewhere name mons
  pub manager_left : 1 ≤ elsewhere name mgrs
  pub metadata_left : 1 ≤ elsewhere name mdss

-- And the OSDs of the node may stop.
pub record IsSafe (env : Env) (name : String) : Type 0 where
  pub disks : List ConfiguredDisk
  pub known : env.disks ≡ ok disks
  pub stoppable : env.ok_to_stop (osds_at name disks) ≡ true
  pub survives : Survives env name

enough :
    (name : String) (services : List Service) (mons mgrs mdss : List String)
    → ensure_non_osd_svc_enough
        (active_services mons mgrs mdss)
        name
        (total_mons services / 2 + 1)
        1
        1
      ≡ none
    → (total_mons services < 2 * elsewhere name mons)
      × (1 ≤ elsewhere name mgrs)
      × (1 ≤ elsewhere name mdss)
unfolding ensure_non_osd_svc_enough
enough name services mons mgrs mdss h = ground (arith, found-active name mons mgrs mdss)

services_checked-Survives :
    (env : Env) (name : String) (services : Result String (List Service))
    (mons mgrs mdss : Result String (List String))
    → env.services ≡ services
    → env.active_mons ≡ mons
    → env.active_mgrs ≡ mgrs
    → env.active_mdss ≡ mdss
    → services_checked name services mons mgrs mdss ≡ none
    → Survives env name
unfolding services_checked operation_outcome to_error
services_checked-Survives env name (ok services) (ok mons) (ok mgrs) (ok mdss) a b c d h =
    let (majority, manager_left, metadata_left) = enough name services mons mgrs mdss h in
    record {
      services = services;
      mons = mons;
      mgrs = mgrs;
      mdss = mdss;
      listed = a;
      quorum = b;
      managers = c;
      metadata = d;
      majority = majority;
      manager_left = manager_left;
      metadata_left = metadata_left;
    }
services_checked-Survives env name (err e) _ _ _ a b c d h = cc
services_checked-Survives env name (ok s) (err e) _ _ a b c d h = cc
services_checked-Survives env name (ok s) (ok m) (err e) _ a b c d h = cc
services_checked-Survives env name (ok s) (ok m) (ok g) (err e) a b c d h = cc

osds_checked-IsSafe :
    (env : Env) (name : String) (disks : Result String (List ConfiguredDisk))
    → env.disks ≡ disks
    → Survives env name
    → osds_checked env.ok_to_stop name disks ≡ none
    → IsSafe env name
unfolding osds_checked operation_outcome to_error
osds_checked-IsSafe env name (err e) a survives h = cc
osds_checked-IsSafe env name (ok disks) a survives h = record {
  disks = disks;
  known = a;
  stoppable = ground arith;
  survives = survives;
}

-- The preflight checks leave the node alone.
pub preflight-same :
    (env : Env) (name : String) (dry : Bool) (node : Node)
    → (run_operations env name preflight_checks dry false node).0 ≡ node
unfolding run_operations stepped with_entry run_operation
preflight-same env name true node = refl
preflight-same env name false node = ground arith

-- They report no error only where both succeeded.
preflight-passed :
    (env : Env) (name : String) (node : Node)
    → any_error (run_operations env name preflight_checks false false node).1 ≡ false
    → (check_osds env name ≡ none) × (check_services env name ≡ none)
unfolding run_operations stepped with_entry run_operation any_error
preflight-passed env name node h = ground arith

run_operations-dry :
    (env : Env) (name : String) (ops : List Operation) (force : Bool) (node : Node)
    → (run_operations env name ops true force node).0 ≡ node
unfolding run_operations with_entry
run_operations-dry env name [] force node = refl
run_operations-dry env name (op ∷ ops) force node = run_operations-dry env name ops force node

-- What changes the node is the main part, and not before the checks have passed.
abbrev Started : MaintenanceRequest → Bool → List OperationResult → Type 0
Started req force checks =
    (req.check_only ≡ false)
    × ((req.ignore_check ≡ true) ⊎ ((force ≡ true) ⊎ (any_error checks ≡ false)))

abbrev Moves : MaintenanceRequest → Bool → (Node → Results) → (Node → Results) → Node → Type 0
Moves req force preflight main node =
    ((execute req force preflight main node).0 ≡ node)
    ⊎ (Started req force (preflight node).1
        × ((execute req force preflight main node).0 ≡ (main node).0))

execute-Moves :
    (req : MaintenanceRequest) (force : Bool) (preflight main : Node → Results) (node : Node)
    (only ignore failed : Bool)
    → (preflight node).0 ≡ node
    → req.check_only ≡ only
    → req.ignore_check ≡ ignore
    → any_error (preflight node).1 ≡ failed
    → Moves req force preflight main node
unfolding execute after_preflight append_results
execute-Moves req force preflight main node true true failed same o i f = inl (ground arith)
execute-Moves req force preflight main node true false failed same o i f = inl (ground arith)
execute-Moves req force preflight main node false true failed same o i f =
    inr ((o, inl i), ground arith)
execute-Moves req true preflight main node false false failed same o i f =
    inr ((o, inr (inl refl)), ground arith)
execute-Moves req false preflight main node false false true same o i f = inl (ground arith)
execute-Moves req false preflight main node false false false same o i f =
    inr ((o, inr (inr f)), ground arith)

passed-IsSafe :
    (env : Env) (name : String) (node : Node)
    → any_error (run_operations env name preflight_checks false false node).1 ≡ false
    → IsSafe env name
unfolding check_osds check_services
passed-IsSafe env name node h =
    let (osds, services) = preflight-passed env name node h in
    osds_checked-IsSafe env name env.disks refl
      (services_checked-Survives env name env.services env.active_mons env.active_mgrs
        env.active_mdss refl refl refl refl services)
      osds

-- Enter, with its flag for a dry run apart.
abbrev entered : Env → String → MaintenanceRequest → Bool → Node → Node
entered env name req dry node =
    (execute req req.force (run_operations env name preflight_checks dry false)
      (run_operations env name (enter_operations req.set_noout req.stop_osds) dry false) node).0

entered-changes :
    (env : Env) (name : String) (req : MaintenanceRequest) (dry : Bool) (node : Node)
    → entered env name req dry node ≢ node
    → (dry ≡ false)
      × (req.check_only ≡ false)
      × ((req.ignore_check ≡ true) ⊎ ((req.force ≡ true) ⊎ IsSafe env name))
entered-changes env name req dry node h = moved dry h (
    execute-Moves req req.force (run_operations env name preflight_checks dry false)
      (run_operations env name (enter_operations req.set_noout req.stop_osds) dry false) node
      req.check_only req.ignore_check
      (any_error (run_operations env name preflight_checks dry false node).1)
      (preflight-same env name dry node) refl refl refl)
  where
    safe :
        Started req req.force (run_operations env name preflight_checks false false node).1
        → (req.check_only ≡ false)
          × ((req.ignore_check ≡ true) ⊎ ((req.force ≡ true) ⊎ IsSafe env name))
    safe (only, inl i) = (only, inl i)
    safe (only, inr (inl f)) = (only, inr (inl f))
    safe (only, inr (inr passed)) = (only, inr (inr (passed-IsSafe env name node passed)))

    moved :
        (d : Bool)
        → entered env name req d node ≢ node
        → Moves req req.force
            (run_operations env name preflight_checks d false)
            (run_operations env name (enter_operations req.set_noout req.stop_osds) d false)
            node
        → (d ≡ false)
          × (req.check_only ≡ false)
          × ((req.ignore_check ≡ true) ⊎ ((req.force ≡ true) ⊎ IsSafe env name))
    moved d k (inl e) = absurd (k e)
    moved true k (inr (started, e)) = absurd (
        k (
          e
          ∙ run_operations-dry env name (enter_operations req.set_noout req.stop_osds) false node))
    moved false k (inr (started, e)) = let (only, why) = safe started in (refl, only, why)

-- A request to enter maintenance that changes the node is neither a dry run nor only a check; and
-- unless it ignores the checks or is forced, the OSDs of the node are safe to stop, and without the
-- node a majority of all monitors stays in quorum and a manager and a metadata server stay active.
pub enter-changes :
    (env : Env) (name : String) (req : MaintenanceRequest) (node : Node)
    → (enter env name req node).0 ≢ node
    → (req.dry_run ≡ false)
      × (req.check_only ≡ false)
      × ((req.ignore_check ≡ true) ⊎ ((req.force ≡ true) ⊎ IsSafe env name))
unfolding enter
enter-changes env name req node h = entered-changes env name req req.dry_run node h
