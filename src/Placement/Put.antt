-- ===== src/Placement/Put.antt =====
-- The handlers cmdPlacementPut and cmdPlacementDelete: microceph/api/placement.go.
pub mod Exclusion
pub mod StandDown
use microceph.Prelude.{
  ℕ, List, [], ◌∷◌, Bool, true, false, not, ◌||◌, Option, none, some, ◌==◌, string_eq,
  if◌then◌else◌,
}
use microceph.Placement.Policy.{PlacementPolicy}
use microceph.Placement.Errors.{
  RemoteError, PlacementError, Sentinel, ceph_not_bootstrapped, unknown_placement_member,
  keep_one_invariant, rgw_frontend_invalid, operation_failed, wraps,
}
use microceph.Placement.Store.{
  Row, lock_placement_apply, release, transaction, clear_placement_policy,
}
use microceph.Placement.Apply.{Cluster, World, apply_placement_policy}

-- The body as the JSON decoder gives it (`none` where it refuses it), whether more follows it, the
-- clock when the lock is taken, and the outcome of the transactions on the lock.
pub record Request : Type 0 where
  pub body : Option PlacementPolicy
  pub trailing : Bool
  pub now : ℕ
  pub lock_fault : Option RemoteError
  pub unlock_fault : Option RemoteError

-- SyncResponse, BadRequest (400), ErrorResponse with StatusConflict (409), InternalError (500), and
-- SmartError, whose status is the library's choice.
pub data Response : Type 0 where
  sync_response bad_request conflict internal_error smart_error : Response

-- isClientSidePlacementError.
unfoldable pub is_client_side : PlacementError → Bool
unfolding wraps
is_client_side e =
    wraps ceph_not_bootstrapped e
    || wraps unknown_placement_member e
    || wraps keep_one_invariant e
    || wraps rgw_frontend_invalid e

-- The response to the result of an apply.
unfoldable pub answer : Option PlacementError → Response
unfolding is_client_side wraps
answer none = sync_response
answer (some e) =
    if wraps operation_failed e
    then internal_error
    else if is_client_side e
    then bad_request
    else smart_error

-- The deferred UnlockPlacementApply; its own error is only logged.
unfoldable pub unlock_placement_apply : Option RemoteError → ℕ → Row → Row
unfolding release
unlock_placement_apply (some e) token row = row
unlock_placement_apply none token row = (release token row).0

unlocked : Request → World × Response → World × Response
unfolding unlock_placement_apply
unlocked req (w, response) =
    (record w { row = unlock_placement_apply req.unlock_fault req.now w.row }, response)

when_locked : Request → (Row → World × Response) → Row × Option Bool → World × Response
unfolding unlocked
when_locked req body (row, some true) = unlocked req (body row)
when_locked req body (row, some false) = (record { row = row; calls = [] }, conflict)
when_locked req body (row, none) = (record { row = row; calls = [] }, smart_error)

try_lock : Request → (Row → World × Response) → Option RemoteError → Row → World × Response
unfolding when_locked
try_lock req body (some e) row = (record { row = row; calls = [] }, smart_error)
try_lock req body none row = when_locked req body (lock_placement_apply req.now row)

-- Both handlers run their body between LockPlacementApply and UnlockPlacementApply.
unfoldable pub with_lock : Request → (Row → World × Response) → Row → World × Response
unfolding try_lock
with_lock req body row = try_lock req body req.lock_fault row

-- ApplyPlacementPolicy and its response.
unfoldable pub applied : Cluster → PlacementPolicy → Row → World × Response
unfolding answer
applied cluster policy row = let r = apply_placement_policy cluster policy row in (r.0, answer r.1)

put_body : Cluster → Request → Option PlacementPolicy → Row → World × Response
unfolding with_lock applied
put_body cluster req none row = (record { row = row; calls = [] }, bad_request)
put_body cluster req (some policy) row =
    if req.trailing || not (policy.mode == "reconcile")
    then (record { row = row; calls = [] }, bad_request)
    else with_lock req (applied cluster policy) row

-- cmdPlacementPut.
unfoldable pub cmd_placement_put : Cluster → Request → Row → World × Response
unfolding put_body
cmd_placement_put cluster req row = put_body cluster req req.body row

-- ClearPlacementPolicy and its response; `fault` is the outcome of its transaction.
unfoldable pub cleared : Option RemoteError → Row → World × Response
unfolding transaction clear_placement_policy
cleared fault row =
    let r = transaction fault clear_placement_policy row in
    (record { row = r.0; calls = [] }, elim r.1 [ none ↦ sync_response | some e ↦ internal_error ])

-- cmdPlacementDelete.
unfoldable pub cmd_placement_delete : Option RemoteError → Request → Row → World × Response
unfolding with_lock cleared
cmd_placement_delete fault req row = with_lock req (cleared fault) row
