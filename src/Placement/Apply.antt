-- ===== src/Placement/Apply.antt =====
-- ApplyPlacementPolicy and its phases: microceph/ceph/placement.go.
pub mod Stored
pub mod Eligibility
pub mod Writes
pub mod Flags
use microceph.Prelude.{
  String, List, [], ◌∷◌, Bool, true, false, not, ◌||◌, Option, none, some, ◌==◌, string_eq,
  if◌then◌else◌, Result, ok, err, ◌>>=◌,
}
use microceph.Placement.Policy.{RgwPlacement, MemberPlacement, Members, PlacementPolicy}
use microceph.Placement.Rgw.{Tls, RgwError, normalized}
use microceph.Placement.Errors.{
  RemoteError, Call, PlacementError, no_server_certificate, bootstrap_unknown, not_bootstrapped,
  members_unlisted, unknown_member, rgw_invalid,
}
use microceph.Placement.Engine.{Env, Run}
use microceph.Placement.Reconcile.{reconcile_placement}
use microceph.Placement.Store.{
  PlacementPolicyRecord, Row, transaction, set_placement_refusal, store_placement_policy,
}

-- What an apply meets outside this code: the engine's surroundings, the TLS libraries, the answers
-- of the lifecycle and membership queries, and the outcome of the two transactions.
pub record Cluster : Type 0 where
  pub engine : Env
  pub tls : Tls
  pub bootstrapped : Result RemoteError Bool
  pub member_names : Result RemoteError (List String)
  pub store_fault : Option RemoteError
  pub refusal_fault : Option RemoteError

-- The table, and the dispatches made, the newest first.
pub record World : Type 0 where
  pub row : Row
  pub calls : List Call

normalize_entry :
    Tls → String → MemberPlacement → Option RgwPlacement → Result PlacementError MemberPlacement
normalize_entry tls name mp none = ok mp
normalize_entry tls name mp (some r) = elim (normalized tls r) [
  | ok s ↦ ok (record mp { rgw = some s })
  | err e ↦ err (rgw_invalid name e)
]

unfoldable pub normalize_members : Tls → Members → Result PlacementError Members
unfolding normalize_entry
normalize_members tls [] = ok []
normalize_members tls ((name, mp) ∷ rest) = do
  mp' ← normalize_entry tls name mp mp.rgw
  rest' ← normalize_members tls rest
  ok ((name, mp') ∷ rest')

-- normalizePlacement.
unfoldable pub normalize_placement : Tls → PlacementPolicy → Result PlacementError PlacementPolicy
unfolding normalize_members
normalize_placement tls policy = do
  members ← normalize_members tls policy.members
  ok (record policy { members = members })

is_member : String → List String → Bool
is_member name [] = false
is_member name (m ∷ ms) = m == name || is_member name ms

-- The first entry, in the order of the range, that names no member.
unfoldable pub first_unknown : List String → Members → Option PlacementError
unfolding is_member
first_unknown known [] = none
first_unknown known ((name, _) ∷ rest) =
    let more = first_unknown known rest in
    if not (is_member name known) then some (unknown_member name) else more

unfoldable pub check_known : Result RemoteError (List String) → Members → Option PlacementError
unfolding first_unknown
check_known (err e) members = some (members_unlisted e)
check_known (ok known) members = first_unknown known members

unfoldable pub check_bootstrapped :
    Result RemoteError Bool → Result RemoteError (List String) → Members → Option PlacementError
unfolding check_known
check_bootstrapped (err e) known members = some (bootstrap_unknown e)
check_bootstrapped (ok false) known members = some not_bootstrapped
check_bootstrapped (ok true) known members = check_known known members

unfoldable pub check_members : Cluster → Members → Option PlacementError
unfolding check_bootstrapped
check_members cluster [] = none
check_members cluster (m ∷ ms) =
    check_bootstrapped cluster.bootstrapped cluster.member_names (m ∷ ms)

-- ValidatePlacement.
unfoldable pub validate_placement : Cluster → PlacementPolicy → Option PlacementError
unfolding check_members
validate_placement cluster policy =
    if not cluster.engine.server_cert
    then some no_server_certificate
    else check_members cluster policy.members

-- writePlacementRefusal; its own error is only logged.
unfoldable pub write_refusal : Cluster → Option PlacementError → Row → Row
unfolding transaction set_placement_refusal
write_refusal cluster reason row =
    (transaction cluster.refusal_fault (set_placement_refusal reason) row).0

-- recordPlacementRefusal, and the return of its cause.
unfoldable pub refuse : Cluster → PlacementError → World → World × Option PlacementError
unfolding write_refusal
refuse cluster e w = (record w { row = write_refusal cluster (some e) w.row }, some e)

reconciled : Cluster → World → Run × Option PlacementError → World × Option PlacementError
unfolding refuse
reconciled cluster w (run, some e) = refuse cluster e (record w { calls = run.calls })
reconciled cluster w (run, none) =
    (record { row = write_refusal cluster none w.row; calls = run.calls }, none)

apply_stored :
    Cluster → PlacementPolicy → World → Row × Option PlacementError → World × Option PlacementError
unfolding reconciled refuse
apply_stored cluster policy w (row, some e) = refuse cluster e (record w { row = row })
apply_stored cluster policy w (row, none) =
    reconciled cluster (record w { row = row }) (reconcile_placement cluster.engine policy)

apply_valid :
    Cluster → PlacementPolicy → World → Option PlacementError → World × Option PlacementError
unfolding apply_stored refuse
apply_valid cluster policy w (some e) = refuse cluster e w
apply_valid cluster policy w none =
    apply_stored cluster policy w (store_placement_policy cluster.store_fault policy w.row)

apply_normal :
    Cluster → World → Result PlacementError PlacementPolicy → World × Option PlacementError
unfolding apply_valid refuse
apply_normal cluster w (err e) = refuse cluster e w
apply_normal cluster w (ok policy) =
    apply_valid cluster policy w (validate_placement cluster policy)

-- ApplyPlacementPolicy on a table; the dispatches are those of the one reconcile.
unfoldable pub apply_placement_policy :
    Cluster → PlacementPolicy → Row → World × Option PlacementError
unfolding apply_normal
apply_placement_policy cluster policy row =
    apply_normal cluster (record { row = row; calls = [] }) (normalize_placement cluster.tls policy)
