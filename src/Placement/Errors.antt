-- ===== src/Placement/Errors.antt =====
-- The errors of the placement engine, with what each wraps: the sentinels of
-- microceph/ceph/placement.go.
use microceph.Prelude.{
  ℕ, String, List, [], ◌∷◌, Bool, true, false, ◌≡◌, ◌↔◌, ◌||◌, Eq, arith, if◌then◌else◌,
}
use microceph.Placement.Policy.{RgwPlacement}
use microceph.Placement.Rgw.{RgwError}

-- controlServices.
pub data ControlService : Type 0 where
  mon mgr mds : ControlService

abbrev pub control_services : List ControlService
control_services = mon ∷ mgr ∷ mds ∷ []

abbrev pub same_service : ControlService → ControlService → Bool
same_service mon mon = true
same_service mgr mgr = true
same_service mds mds = true
same_service _ _ = false

pub same_service_iff : (a b : ControlService) → (same_service a b ≡ true) ↔ (a ≡ b)
same_service_iff mon b = ground arith
same_service_iff mgr b = ground arith
same_service_iff _ b = ground arith

instance abbrev pub service_eq : Eq ControlService
service_eq = record { beq = same_service; beq_iff = same_service_iff }

-- An error that another component or member returned, with the HTTP status that it carries
-- (0 where it carries none).
pub record RemoteError : Type 0 where
  pub status : ℕ
  pub text : String

-- A dispatch to a member.
pub data Call : Type 0 where
  add_control remove_control : ControlService → String → Call
  enable_rgw : String → RgwPlacement → Call
  remove_rgw : String → Call

-- One entry of the aggregated RGW failure.
pub data RgwFailure : Type 0 where
  failed : Call → RemoteError → RgwFailure
  deferred : List String → RgwFailure

abbrev pub Refusal : Type 0
Refusal = ControlService × String

pub data PlacementError : Type 0 where
  no_server_certificate nil_dereference : PlacementError
  observe_failed : RemoteError → PlacementError
  add_failed remove_failed : ControlService → String → RemoteError → PlacementError
  keep_one : List Refusal → PlacementError
  rgw_failed : Bool → List RgwFailure → PlacementError
  also_refused : PlacementError → List Refusal → PlacementError
  rgw_invalid : String → RgwError → PlacementError
  bootstrap_unknown members_unlisted store_failed : RemoteError → PlacementError
  not_bootstrapped row_missing : PlacementError
  unknown_member : String → PlacementError

pub data Sentinel : Type 0 where
  ceph_not_bootstrapped unknown_placement_member keep_one_invariant : Sentinel
  rgw_frontend_invalid operation_failed : Sentinel

same_sentinel : Sentinel → Sentinel → Bool
same_sentinel ceph_not_bootstrapped ceph_not_bootstrapped = true
same_sentinel unknown_placement_member unknown_placement_member = true
same_sentinel keep_one_invariant keep_one_invariant = true
same_sentinel rgw_frontend_invalid rgw_frontend_invalid = true
same_sentinel operation_failed operation_failed = true
same_sentinel _ _ = false

-- errors.Is.
unfoldable pub wraps : Sentinel → PlacementError → Bool
unfolding same_sentinel
wraps s (observe_failed _) = same_sentinel s operation_failed
wraps s (add_failed _ _ _) = same_sentinel s operation_failed
wraps s (remove_failed _ _ _) = same_sentinel s operation_failed
wraps s (keep_one _) = same_sentinel s keep_one_invariant
wraps s (rgw_failed operational _) =
    same_sentinel s (if operational then operation_failed else rgw_frontend_invalid)
wraps s (also_refused e _) = wraps s e || same_sentinel s keep_one_invariant
wraps s (rgw_invalid _ _) = same_sentinel s rgw_frontend_invalid
wraps s not_bootstrapped = same_sentinel s ceph_not_bootstrapped
wraps s (unknown_member _) = same_sentinel s unknown_placement_member
wraps s _ = false

-- retainRefusals.
unfoldable pub retain_refusals : PlacementError → List Refusal → PlacementError
retain_refusals e [] = e
retain_refusals e (r ∷ rs) = also_refused e (r ∷ rs)
