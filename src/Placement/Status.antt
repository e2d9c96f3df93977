-- ===== src/Placement/Status.antt =====
-- GetPlacementStatus of microceph/ceph/placement.go, which answers GET /placement.
pub mod Observed
pub mod Report
use microceph.Prelude.{
  String, List, [], ◌∷◌, ◌++◌, Bool, true, false, ◌||◌, ◌&&◌, Option, none, some, ◌==◌, string_eq,
  lookup, insert, Result, ok, err, if◌then◌else◌,
}
use microceph.Prelude.Int.{ℤ}
use microceph.Placement.Policy.{RgwPlacement, MemberPlacement, Members, PlacementPolicy}
use microceph.Placement.Errors.{
  RemoteError, PlacementError, no_server_certificate, row_missing, store_failed,
}
use microceph.Placement.Engine.{ServiceRow}
use microceph.Placement.Store.{PlacementPolicyRecord, Row}
use microceph.Lifecycle.{CephState, failed, Detail, ClusterLifecycle}

-- RgwObservedFrontend.
pub record RgwObservedFrontend : Type 0 where
  pub port : ℤ
  pub ssl_port : ℤ
  pub ssl : Bool

-- PlacementObservedMember; the member is its key in the map.
pub record PlacementObservedMember : Type 0 where
  pub control : Bool
  pub rgw : Bool
  pub rgw_frontend : Option RgwObservedFrontend
  pub nfs : List String

abbrev pub Observed : Type 0
Observed = List (String × PlacementObservedMember)

-- Rows of the grouped_services and rgw_frontends tables.
pub record GroupedService : Type 0 where
  pub service : String
  pub group_id : String
  pub member : String

pub record RgwFrontend : Type 0 where
  pub member : String
  pub frontend : RgwObservedFrontend

-- What the transaction reads, and the outcome of the transaction.
pub record Tables : Type 0 where
  pub policy : Row
  pub lifecycle : Option ClusterLifecycle
  pub services : List ServiceRow
  pub grouped_services : List GroupedService
  pub rgw_frontends : List RgwFrontend
  pub fault : Option RemoteError

-- redactSecrets, a replacement by package regexp, on the two texts that it is applied to.
pub record Redaction : Type 0 where
  pub refusal : PlacementError → PlacementError
  pub detail : Detail → Detail

pub record PlacementStatus : Type 0 where
  pub active : Bool
  pub policy : Option PlacementPolicy
  pub observed : Observed
  pub bootstrap_state : CephState
  pub bootstrap_target : String
  pub blocked_reason : Option Detail
  pub placement_refusal : Option PlacementError

-- redactStoredPolicy on one entry.
unfoldable pub blanked : MemberPlacement → MemberPlacement
blanked mp = record mp {
  rgw = elim mp.rgw [
    | none ↦ none
    | some r ↦ some (record r { ssl_certificate = ""; ssl_private_key = "" })
  ];
}

unfoldable pub redact_members : Members → Members
unfolding blanked
redact_members [] = []
redact_members ((name, mp) ∷ rest) = (name, blanked mp) ∷ redact_members rest

-- redactStoredPolicy.
unfoldable pub redact_stored_policy : PlacementPolicy → PlacementPolicy
unfolding redact_members
redact_stored_policy policy = record policy { members = redact_members policy.members }

abbrev pub no_services : PlacementObservedMember
no_services = record { control = false; rgw = false; rgw_frontend = none; nfs = [] }

abbrev pub or_new : Option PlacementObservedMember → PlacementObservedMember
or_new none = no_services
or_new (some om) = om

abbrev pub is_control : String → Bool
is_control service = service == "mon" || (service == "mgr" || service == "mds")

-- The switch on the name of a service.
unfoldable pub mark_service : String → PlacementObservedMember → PlacementObservedMember
mark_service service om =
    if is_control service
    then record om { control = true }
    else if service == "rgw"
    then record om { rgw = true }
    else om

unfoldable pub note_services : List ServiceRow → Observed → Observed
unfolding mark_service
note_services [] observed = observed
note_services (svc ∷ rest) observed =
    note_services rest
      (insert svc.member (mark_service svc.service (or_new (lookup svc.member observed))) observed)

unfoldable pub add_group : String → PlacementObservedMember → PlacementObservedMember
add_group group_id om = record om { nfs = om.nfs ++ group_id ∷ [] }

unfoldable pub note_groups : List GroupedService → Observed → Observed
unfolding add_group
note_groups [] observed = observed
note_groups (gs ∷ rest) observed = note_groups rest (
    if gs.service == "nfs"
    then insert gs.member (add_group gs.group_id (or_new (lookup gs.member observed))) observed
    else observed)

attached : String → RgwObservedFrontend → Observed → Option PlacementObservedMember → Observed
attached member frontend observed none = observed
attached member frontend observed (some om) =
    if om.rgw then insert member (record om { rgw_frontend = some frontend }) observed else observed

-- populateRGWFrontends.
unfoldable pub populate_rgw_frontends : List RgwFrontend → Observed → Observed
unfolding attached
populate_rgw_frontends [] observed = observed
populate_rgw_frontends (f ∷ rest) observed =
    populate_rgw_frontends rest (attached f.member f.frontend observed (lookup f.member observed))

unfoldable pub observe_members : Tables → Observed
unfolding note_services note_groups populate_rgw_frontends
observe_members t =
    populate_rgw_frontends t.rgw_frontends
      (note_groups t.grouped_services (note_services t.services []))

abbrev blocked : Redaction → ClusterLifecycle → Option Detail
blocked redaction lc = elim lc.ceph_bootstrap_state [
  | failed ↦ some (redaction.detail lc.detail)
  | _ ↦ none
]

reported_policy : Bool → Option PlacementPolicy → Option PlacementPolicy
unfolding redact_stored_policy
reported_policy true (some policy) = some (redact_stored_policy policy)
reported_policy active stored = none

status_of :
    Redaction → Tables → Row → Option ClusterLifecycle → Result PlacementError PlacementStatus
unfolding reported_policy observe_members
status_of redaction t none lifecycle = err row_missing
status_of redaction t (some rec) none = err row_missing
status_of redaction t (some rec) (some lc) = ok (record {
  active = rec.active;
  policy = reported_policy rec.active rec.policy_json;
  observed = observe_members t;
  bootstrap_state = lc.ceph_bootstrap_state;
  bootstrap_target = lc.ceph_bootstrap_target;
  blocked_reason = blocked redaction lc;
  placement_refusal = elim rec.last_refusal [ none ↦ none | some e ↦ some (redaction.refusal e) ];
})

-- GetPlacementStatus.
unfoldable pub get_placement_status :
    Redaction → Bool → Tables → Result PlacementError PlacementStatus
unfolding status_of
get_placement_status redaction server_cert t =
    if server_cert
    then elim t.fault [
      | none ↦ status_of redaction t t.policy t.lifecycle
      | some e ↦ err (store_failed e)
    ]
    else err no_server_certificate
