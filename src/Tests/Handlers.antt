-- ===== src/Tests/Handlers.antt =====
-- The apply, its lock and the handlers on the cluster of three members.
use microceph.Prelude.{
  List, [], ◌∷◌, true, false, none, some, ◌≡◌, refl, ◌≢◌, ◌↔◌, string_eq, arith, ok, err,
}
use microceph.Placement.Rgw.{Tls, decode_rgw_certificate, normalized, normalize_rgw_ports}
use microceph.Placement.Rgw.Ports.{IsNormal, normalized-IsNormal}
use microceph.Placement.Errors.{nil_dereference, service_eq, RemoteError, unknown_member}
use microceph.Placement.Engine.{initial_run}
use microceph.Placement.Gateways.{apply_rgw_placement}
use microceph.Placement.Reconcile.{reconcile_placement}
use microceph.Placement.Store.{
  PlacementPolicyRecord, update, transaction, clear_placement_policy, try_acquire, release,
  lock_placement_apply, check_storage_eligibility,
}
use microceph.Placement.Store.Lock.{
  Event, attempt, unlock, store, note, run_events, acquisitions, token_of, run_events-held,
}
use microceph.Placement.Store.Secrets.{RowClean, run_events-RowClean}
use microceph.Placement.Apply.{
  Cluster, normalize_members, normalize_placement, first_unknown, validate_placement,
  apply_placement_policy,
}
use microceph.Placement.Apply.Stored.{accepted, outcome, apply-accepted, apply-rejected}
use microceph.Placement.Apply.Flags.{accepted-no_dereference}
use microceph.Placement.Apply.Eligibility.{is_eligible, apply-eligibility}
use microceph.Placement.Apply.Writes.{apply-RowClean}
use microceph.Placement.Put.{
  Request, sync_response, unlock_placement_apply, with_lock, cmd_placement_put, cleared,
  cmd_placement_delete,
}
use microceph.Placement.Put.Exclusion.{put-excluded, put-releases, untouched}
use microceph.Placement.Put.StandDown.{StoodDown, delete-StoodDown}
use microceph.Tests.Cluster.{entry, gateway, normal_gateway, policy, normal_policy, env}

-- Every text is its own encoding, and every pair is usable.
abbrev pub tls : Tls
tls = record { decode_base64 = λ s. some s; x509_key_pair = λ _ _. true }

abbrev pub cluster : Cluster
cluster = record {
  engine = env;
  tls = tls;
  bootstrapped = ok true;
  member_names = ok ("a" ∷ "b" ∷ "c" ∷ []);
  store_fault = none;
  refusal_fault = none;
}

-- A policy that grants storage to `b` is in force.
abbrev old_row : PlacementPolicyRecord
old_row = record {
  active = true;
  policy_json =
      some (record { mode = "reconcile"; members = ("b", entry none none (some true)) ∷ [] });
  last_refusal = none;
  apply_lock_token = 0;
}

accepted-policy : accepted cluster policy ≡ ok normal_policy
unfolding normalize_placement normalize_members normalized normalize_rgw_ports
    decode_rgw_certificate validate_placement first_unknown
accepted-policy = refl

apply-accepted_example :
    apply_placement_policy cluster policy (some old_row)
    ≡ outcome cluster normal_policy old_row (reconcile_placement env normal_policy)
apply-accepted_example =
    apply-accepted cluster refl refl policy normal_policy old_row accepted-policy

-- `c` is no member.
abbrev smaller : Cluster
smaller = record cluster { member_names = ok ("a" ∷ "b" ∷ []) }

rejected_policy : accepted smaller policy ≡ err (unknown_member "c")
unfolding normalize_placement normalize_members normalized normalize_rgw_ports
    decode_rgw_certificate validate_placement first_unknown
rejected_policy = refl

apply-rejected_example : apply_placement_policy smaller policy (some old_row) ≡ (
  record { row = some (record old_row { last_refusal = some (unknown_member "c") }); calls = [] },
  some (unknown_member "c"),
)
apply-rejected_example =
    apply-rejected smaller refl policy old_row (unknown_member "c") rejected_policy

apply-eligibility_example :
    (check_storage_eligibility "b" (apply_placement_policy cluster policy (some old_row)).0.row
      ≡ none)
    ↔ (is_eligible "b" policy.members ≡ true)
apply-eligibility_example =
    apply-eligibility cluster policy normal_policy old_row "b" refl refl accepted-policy

apply-RowClean_example : RowClean (apply_placement_policy cluster policy (some old_row)).0.row
apply-RowClean_example = apply-RowClean cluster policy (some old_row) (tt, tt)

abbrev held_row : PlacementPolicyRecord
held_row = record old_row { apply_lock_token = 5000000000000 }

-- Another member's attempt, a stray release and two writes, within the lease.
abbrev events : List Event
events =
    attempt 5000000000009
    ∷ unlock 7
    ∷ store none normal_policy
    ∷ note none (some (unknown_member "c"))
    ∷ attempt 5900000000000
    ∷ []

run_events-held_example :
    (token_of (run_events events (some held_row)) ≡ some 5000000000000)
    × (acquisitions events (some held_row) ≡ 0)
run_events-held_example =
    run_events-held 5000000000000 events (some held_row) (omega arith)
      (omega arith, (omega arith, (tt, (tt, (omega arith, tt))))) refl

run_events-RowClean_example : RowClean (run_events events (some held_row))
run_events-RowClean_example = run_events-RowClean events (some held_row) (tt, tt)

abbrev request : Request
request = record {
  body = some policy;
  trailing = false;
  now = 5000000000009;
  lock_fault = none;
  unlock_fault = none;
}

put-excluded_example :
    ((cmd_placement_put cluster request (some held_row)).0 ≡ untouched (some held_row))
    × ((cmd_placement_put cluster request (some held_row)).1 ≢ sync_response)
put-excluded_example =
    put-excluded cluster request held_row 5000000000000 refl (omega arith) (omega arith)

put-releases_example : token_of (cmd_placement_put cluster request (some old_row)).0.row ≡ some 0
put-releases_example = put-releases cluster request old_row refl refl

abbrev fault : RemoteError
fault = record { status = 400; text = "no space" }

delete_answers : (cmd_placement_delete none request (some old_row)).1 ≡ sync_response
unfolding cmd_placement_delete with_lock lock_placement_apply try_acquire cleared transaction
    clear_placement_policy update unlock_placement_apply release
delete_answers = refl

delete-StoodDown_example :
    StoodDown (cmd_placement_delete none request (some old_row)).0.row
    × (check_storage_eligibility "a" (cmd_placement_delete none request (some old_row)).0.row
        ≡ none)
delete-StoodDown_example = delete-StoodDown none request (some old_row) "a" delete_answers

normalized-gateway : normalized tls gateway ≡ ok normal_gateway
unfolding normalized normalize_rgw_ports decode_rgw_certificate
normalized-gateway = refl

normalized-IsNormal_example : IsNormal normal_gateway
normalized-IsNormal_example = normalized-IsNormal tls gateway normal_gateway normalized-gateway

accepted-no_dereference_example :
    (apply_rgw_placement env normal_policy (initial_run [])).1 ≢ some nil_dereference
accepted-no_dereference_example =
    accepted-no_dereference cluster policy normal_policy env (initial_run []) accepted-policy
