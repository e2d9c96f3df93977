-- ===== src/Tests/Cluster.antt =====
-- The placement engine on a cluster of three members.
use microceph.Prelude.{
  String, List, [], ◌∷◌, Bool, true, false, Option, none, some, ◌≡◌, refl, ◌≢◌, inl, inr, string_eq,
  Occurs, ok, lookup, insert, for_each,
}
use microceph.Prelude.Int.{pos}
use microceph.Placement.Policy.{RgwPlacement, MemberPlacement, PlacementPolicy}
use microceph.Placement.Errors.{
  mgr, mon, mds, service_eq, Call, add_control, remove_control, enable_rgw, keep_one,
}
use microceph.Placement.Table.{get, put}
use microceph.Placement.Engine.{
  ServiceRow, Env, is_keeper, is_desired, control_of, observe, control_service_of, dispatch,
  add_member, add_services, scan_members, scan_services, mark_unready, control_service_viability,
  count_retainers, remove_member, remove_services, assess, initial_run,
}
use microceph.Placement.Engine.Order.{AddsFirst}
use microceph.Placement.Gateways.{
  lacks_flag, gateways, sort_gateways, dispatch_all, any_operational, apply_rgw_placement,
}
use microceph.Placement.Reconcile.{conclude, finish, reconcile_from, reconcile_placement}
use microceph.Placement.Reconcile.Safety.{
  reconcile_placement_keeps_one, reconcile_placement-AddsFirst,
}
use microceph.Placement.Reconcile.Converges.{Present, reconcile_placement-Present}

abbrev pub entry : Option Bool → Option RgwPlacement → Option Bool → MemberPlacement
entry control rgw storage = record {
  control = control;
  rgw = rgw;
  nfs = none;
  storage_eligible = storage;
}

abbrev pub gateway : RgwPlacement
gateway = record {
  enabled = some true;
  ssl = some true;
  port = pos 0;
  ssl_port = pos 0;
  ssl_certificate = "cert";
  ssl_private_key = "key";
}

abbrev pub normal_gateway : RgwPlacement
normal_gateway = record gateway { ssl_port = pos 443 }

-- Move the monitor from `b` to `c`, and run a gateway on `a`.
abbrev pub policy : PlacementPolicy
policy = record {
  mode = "reconcile";
  members =
      ("a", entry none (some gateway) (some true))
      ∷ ("b", entry (some false) none none)
      ∷ ("c", entry (some true) none (some false))
      ∷ [];
}

abbrev pub normal_policy : PlacementPolicy
normal_policy = record {
  mode = "reconcile";
  members =
      ("a", entry none (some normal_gateway) (some true))
      ∷ ("b", entry (some false) none none)
      ∷ ("c", entry (some true) none (some false))
      ∷ [];
}

abbrev running : String → String → ServiceRow
running service member = record { service = service; member = member }

abbrev pub env : Env
env = record {
  server_cert = true;
  services = ok (running "mon" "a" ∷ running "mon" "b" ∷ running "osd" "b" ∷ []);
  respond = λ _ _. none;
  ready = λ _ _. true;
  add_order = λ _. "c" ∷ [];
  remove_order = λ _. "c" ∷ "b" ∷ "a" ∷ [];
}

-- The dispatches of the run, the newest first.
abbrev dispatches : List Call
dispatches =
    enable_rgw "a" gateway
    ∷ remove_control mon "b"
    ∷ add_control mds "c"
    ∷ add_control mgr "c"
    ∷ add_control mon "c"
    ∷ []

run_of_policy : (reconcile_placement env policy).0.calls ≡ dispatches
unfolding reconcile_placement reconcile_from finish conclude apply_rgw_placement lacks_flag gateways
    sort_gateways dispatch_all any_operational remove_services remove_member count_retainers assess
    control_service_viability mark_unready scan_services scan_members add_services add_member
    dispatch observe control_service_of control_of is_desired is_keeper initial_run get put lookup
    insert for_each
run_of_policy = refl

-- With no monitor ready but that of `b`, the removal is refused.
abbrev unready : Env
unready = record env { ready = λ _ _. false }

refusal_of_policy : (reconcile_placement unready policy).1 ≡ some (keep_one ((mon, "b") ∷ []))
unfolding reconcile_placement reconcile_from finish conclude apply_rgw_placement lacks_flag gateways
    sort_gateways dispatch_all any_operational remove_services remove_member count_retainers assess
    control_service_viability mark_unready scan_services scan_members add_services add_member
    dispatch observe control_service_of control_of is_desired is_keeper initial_run get put lookup
    insert for_each
refusal_of_policy = refl

removed_b : Occurs (remove_control mon "b") (reconcile_placement env policy).0.calls
removed_b = rw run_of_policy (inr (inl refl))

reconcile_placement_keeps_one_example :
    (is_keeper policy "b" ≡ false)
    × (retainer : String) × (retainer ≢ "b")
    × (is_keeper policy retainer ≡ true)
    × (env.ready mon retainer ≡ true)
    × ¬ (Occurs (remove_control mon retainer) (reconcile_placement env policy).0.calls)
reconcile_placement_keeps_one_example = reconcile_placement_keeps_one env policy mon "b" removed_b

reconcile_placement-AddsFirst_example : AddsFirst (reconcile_placement env policy).0.calls
reconcile_placement-AddsFirst_example = reconcile_placement-AddsFirst env policy

quiet_run : (reconcile_placement env policy).1 ≡ none
unfolding reconcile_placement reconcile_from finish conclude apply_rgw_placement lacks_flag gateways
    sort_gateways dispatch_all any_operational remove_services remove_member count_retainers assess
    control_service_viability mark_unready scan_services scan_members add_services add_member
    dispatch observe control_service_of control_of is_desired is_keeper initial_run get put lookup
    insert for_each
quiet_run = refl

wants_c : is_desired policy "c" ≡ true
unfolding is_desired control_of lookup
wants_c = refl

reconcile_placement-Present_example :
    Present
      (running "mon" "a" ∷ running "mon" "b" ∷ running "osd" "b" ∷ [])
      mgr
      "c"
      (reconcile_placement env policy).0.calls
reconcile_placement-Present_example =
    reconcile_placement-Present env policy
      (running "mon" "a" ∷ running "mon" "b" ∷ running "osd" "b" ∷ []) mgr "c" wants_c (inl refl)
      refl quiet_run
