-- ===== src/Lifecycle/Handler.antt =====
-- cmdCephBootstrapPut of microceph/api/placement.go.
use microceph.Prelude.{
  String, Bool, true, false, not, Option, none, some, ◌==◌, string_eq, if◌then◌else◌,
}
use microceph.Placement.Put.{Response, sync_response, bad_request, conflict, smart_error}
use microceph.Lifecycle.{
  Database, BootstrapError, already_in_progress, unknown_target, partial_bootstrap,
}
use microceph.Lifecycle.Bootstrap.{Env, bootstrap_ceph}

-- The fields of CephBootstrapRequest that the handler itself reads.
pub record CephBootstrapRequest : Type 0 where
  pub target : String
  pub force : Bool

-- The body as the JSON decoder gives it.
pub data Decoded : Type 0 where
  malformed no_body : Decoded
  request : CephBootstrapRequest → Decoded

-- isClientSideBootstrapError.
unfoldable pub is_client_side_bootstrap_error : BootstrapError → Bool
is_client_side_bootstrap_error unknown_target = true
is_client_side_bootstrap_error partial_bootstrap = true
is_client_side_bootstrap_error _ = false

-- inProgressResponse, and what follows where it gives no response.
unfoldable pub in_progress_response : BootstrapError → Response
in_progress_response already_in_progress = conflict
in_progress_response _ = smart_error

unfoldable pub answer_bootstrap : Option BootstrapError → Response
unfolding is_client_side_bootstrap_error in_progress_response
answer_bootstrap none = sync_response
answer_bootstrap (some e) =
    if is_client_side_bootstrap_error e then bad_request else in_progress_response e

unfoldable pub answered : Database × Option BootstrapError → Database × Response
unfolding answer_bootstrap
answered (db, o) = (db, answer_bootstrap o)

-- The target of the body, or else that of the query.
unfoldable pub target_of : String → String → String
target_of target query = if target == "" then query else target

unfoldable pub targeted : Env → String → String → Bool → Database → Database × Response
unfolding answered bootstrap_ceph
targeted env name target force db =
    if target == ""
    then (db, bad_request)
    else if not (name == target)
    then (db, bad_request)
    else answered (bootstrap_ceph env target force db)

-- cmdCephBootstrapPut on the member `name`.
unfoldable pub cmd_ceph_bootstrap_put :
    Env → String → String → Decoded → Database → Database × Response
unfolding targeted target_of
cmd_ceph_bootstrap_put env name query malformed db = (db, bad_request)
cmd_ceph_bootstrap_put env name query no_body db = targeted env name query false db
cmd_ceph_bootstrap_put env name query (request req) db =
    targeted env name (target_of req.target query) req.force db
