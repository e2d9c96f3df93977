-- ===== src/Placement/Store.antt =====
-- The placement_policy row: microceph/database/placement_policy_extras.go, what
-- microceph/ceph/placement.go stores in it, and checkStorageEligibility of microceph/ceph/osd.go.
-- The JSON text of the policy is kept as the value that it encodes, and the text of a refusal as
-- the error whose text it is.
pub mod Lock
pub mod Secrets
use microceph.Prelude.{
  ℕ, ◌-◌, String, List, [], ◌∷◌, Bool, true, false, not, ◌||◌, Option, none, some, ltb, ◌==◌,
  nat_eq, string_eq, if◌then◌else◌, lookup, Action,
}
use microceph.Placement.Policy.{RgwPlacement, MemberPlacement, Members, PlacementPolicy}
use microceph.Placement.Errors.{RemoteError, PlacementError, row_missing, store_failed}

pub record PlacementPolicyRecord : Type 0 where
  pub active : Bool
  pub policy_json : Option PlacementPolicy
  pub last_refusal : Option PlacementError
  pub apply_lock_token : ℕ

-- The table, which holds at most the row with id 1.
abbrev pub Row : Type 0
Row = Option PlacementPolicyRecord

abbrev pub Write : Type 0
Write = Action Row PlacementError

-- `UPDATE placement_policy SET ... WHERE id = 1`, and the check of the rows affected.
unfoldable pub update : (PlacementPolicyRecord → PlacementPolicyRecord) → Write
update f none = (none, some row_missing)
update f (some r) = (some (f r), none)

-- A transaction, which the database may refuse or abort: it then leaves the table as it was.
unfoldable pub transaction : Option RemoteError → Write → Write
transaction none w row = w row
transaction (some e) w row = (row, some (store_failed e))

-- SetPlacementPolicy.
unfoldable pub set_placement_policy : Bool → PlacementPolicy → Write
unfolding update
set_placement_policy active policy =
    update (λ r. record r { active = active; policy_json = some policy })

-- ClearPlacementPolicy.
unfoldable pub clear_placement_policy : Write
unfolding update
clear_placement_policy =
    update (λ r. record r { active = false; policy_json = none; last_refusal = none })

-- SetPlacementRefusal; `none` is the empty reason.
unfoldable pub set_placement_refusal : Option PlacementError → Write
unfolding update
set_placement_refusal reason = update (λ r. record r { last_refusal = reason })

take_token : ℕ → ℕ → PlacementPolicyRecord → PlacementPolicyRecord × Bool
take_token token stale_before r =
    if r.apply_lock_token == 0 || ltb r.apply_lock_token stale_before
    then (record r { apply_lock_token = token }, true)
    else (r, false)

-- TryAcquirePlacementApplyLock: the row, and whether the lock was acquired; `none` is the error of
-- the read when there is no row.
unfoldable pub try_acquire : ℕ → ℕ → Row → Row × Option Bool
unfolding take_token
try_acquire token stale_before none = (none, none)
try_acquire token stale_before (some r) =
    let (r', acquired) = take_token token stale_before r in (some r', some acquired)

-- ReleasePlacementApplyLock.
unfoldable pub release : ℕ → Row → Row × Bool
release token none = (none, false)
release token (some r) =
    if r.apply_lock_token == token
    then (some (record r { apply_lock_token = 0 }), true)
    else (some r, false)

-- placementApplyLease, in nanoseconds.
abbrev pub placement_apply_lease : ℕ
placement_apply_lease = 900000000000

-- LockPlacementApply once the transaction runs; `now` is the clock, at least the lease.
unfoldable pub lock_placement_apply : ℕ → Row → Row × Option Bool
unfolding try_acquire
lock_placement_apply now = try_acquire now (now - placement_apply_lease)

-- policyForStorage on one entry.
unfoldable pub without_material : MemberPlacement → MemberPlacement
without_material mp = record mp {
  rgw = elim mp.rgw [
    | none ↦ none
    | some r ↦ some (record r { ssl_certificate = ""; ssl_private_key = "" })
  ];
}

unfoldable pub strip_members : Members → Members
unfolding without_material
strip_members [] = []
strip_members ((name, mp) ∷ rest) = (name, without_material mp) ∷ strip_members rest

-- policyForStorage.
unfoldable pub policy_for_storage : PlacementPolicy → PlacementPolicy
unfolding strip_members
policy_for_storage policy = record policy { members = strip_members policy.members }

-- storePlacementPolicy.
unfoldable pub store_placement_policy : Option RemoteError → PlacementPolicy → Write
unfolding transaction set_placement_policy policy_for_storage
store_placement_policy fault policy =
    transaction fault (set_placement_policy true (policy_for_storage policy))

-- The errors of checkStorageEligibility.
pub data EligibilityError : Type 0 where
  unreadable no_policy not_present not_storage : EligibilityError

is_granted : Option Bool → Option EligibilityError
is_granted (some true) = none
is_granted _ = some not_storage

unfoldable pub check_entry : Option MemberPlacement → Option EligibilityError
unfolding is_granted
check_entry none = some not_present
check_entry (some mp) = is_granted mp.storage_eligible

check_policy : String → Option PlacementPolicy → Option EligibilityError
unfolding check_entry
check_policy name none = some no_policy
check_policy name (some policy) = check_entry (lookup name policy.members)

-- checkStorageEligibility, for a member that has a state.
unfoldable pub check_storage_eligibility : String → Row → Option EligibilityError
unfolding check_policy
check_storage_eligibility name none = some unreadable
check_storage_eligibility name (some r) =
    if not r.active then none else check_policy name r.policy_json
