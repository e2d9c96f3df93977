-- ===== src/Replication/Site.antt =====
-- The promotion and demotion of a site: handleSiteOp of microceph/ceph/replication_rbd.go, with
-- ListPools of microceph/ceph/osd.go, and the handler of RBD as a whole.
use microceph.Prelude.{
  ℕ, ◌+◌, ◌>>=◌, String, List, [], ◌∷◌, Bool, false, not, ◌&&◌, ◌||◌, Option, none, some, ◌==◌,
  string_eq, ◌>>◌, Result, ok, err, if◌then◌else◌,
}
use microceph.Replication.{
  disabled, enabled, enable_replication, disable_replication, configure_replication,
  list_replication, status_replication, promote_replication, demote_replication, other, RequestType,
  known, is_enabled_state, ReplicationError, not_permitted, needs_force, force_prompt,
  metadata_unread, command_failed, ReplicationHandler,
}
use microceph.Replication.Rbd.{
  list_pools, off, Peer, PoolInfo, PoolStatus, PoolSummary, RbdReplicationRequest,
  RbdReplicationHandler, promote_pool, demote_pool, resync_images, History, Env, MirrorRun, call,
  get_resource_state, stop, enable_handler, disable_handler, configure_handler,
}

total : List ℕ → ℕ
total [] = 0
total (n ∷ ns) = n + total ns

-- GetRbdMirrorPoolStatus: a pool whose status cannot be had is not mirrored, without an error.
unfoldable pub get_rbd_mirror_pool_status :
    Option (Result String PoolSummary) → Result String PoolStatus
unfolding total
get_rbd_mirror_pool_status none = ok (record { state = disabled; image_count = 0; healthy = false })
get_rbd_mirror_pool_status (some (err message)) = err message
get_rbd_mirror_pool_status (some (ok summary)) =
    ok (record {
      state = enabled;
      image_count = total summary.description;
      healthy = summary.healthy;
    })

-- GetRbdMirrorPoolInfo.
unfoldable pub get_rbd_mirror_pool_info : Option (Result String PoolInfo) → Result String PoolInfo
get_rbd_mirror_pool_info none = ok (record { mode = off; peers = [] })
get_rbd_mirror_pool_info (some read) = read

-- getMirrorPoolMetadata.
unfoldable pub get_mirror_pool_metadata : Env → String → Result String (PoolStatus × PoolInfo)
unfolding get_rbd_mirror_pool_status get_rbd_mirror_pool_info
get_mirror_pool_metadata env name = do
  status ← get_rbd_mirror_pool_status (env.status_output name)
  info ← get_rbd_mirror_pool_info (env.info_output name)
  ok (status, info)

-- isPeerRegisteredForMirroring.
unfoldable pub is_peer_registered : String → List Peer → Bool
is_peer_registered name [] = false
is_peer_registered name (p ∷ ps) = p.remote_name == name || is_peer_registered name ps

-- What one round of the loop does: go on, return nil, or return an error.
pub data Next : Type 0 where
  go_on return_nil : Next
  return_error : ReplicationError → Next

unfoldable pub promoted_or : Env → Option String → Next
promoted_or env none = go_on
promoted_or env (some message) =
    return_error (if env.non_primary message then force_prompt else command_failed message)

-- handlePoolPromotion and the test of its result.
unfoldable pub promote_round : Env → String → Bool → History → History × Next
unfolding promoted_or
promote_round env name force history =
    let c = promote_pool name force in (c ∷ history, promoted_or env (env.answer history c))

-- handlePoolDemotion.
unfoldable pub handle_pool_demotion : Env → String → MirrorRun
unfolding call
handle_pool_demotion env name = call env (demote_pool name) >> call env (resync_images name)

unfoldable pub demoted_or : History × Option ReplicationError → History × Next
demoted_or (history, none) = (history, go_on)
demoted_or (history, some e) = (history, return_nil)

-- The test of its result, which returns nil where there is an error.
unfoldable pub demote_round : Env → String → History → History × Next
unfolding demoted_or handle_pool_demotion
demote_round env name history = demoted_or (handle_pool_demotion env name history)

-- Whether the pool is mirrored with the remote of the request.
unfoldable pub takes_part : RbdReplicationRequest → PoolStatus × PoolInfo → Bool
unfolding is_peer_registered
takes_part req (status, info) =
    is_enabled_state status.state && is_peer_registered req.remote_name info.peers

unfoldable pub acted : Env → RbdReplicationRequest → String → RequestType → History → History × Next
unfolding promote_round demote_round
acted env req name (known promote_replication) history =
    promote_round env name req.is_force_op history
acted env req name (known demote_replication) history = demote_round env name history
acted env req name _ history = (history, go_on)

unfoldable pub site_round_on :
    Env
    → RbdReplicationRequest
    → String
    → Result String (PoolStatus × PoolInfo)
    → History
    → History × Next
unfolding takes_part acted
site_round_on env req name (err message) history = (history, return_error (metadata_unread message))
site_round_on env req name (ok found) history =
    let round = acted env req name req.request_type history in
    if takes_part req found then round else (history, go_on)

unfoldable pub site_round : Env → RbdReplicationRequest → String → History → History × Next
unfolding site_round_on get_mirror_pool_metadata
site_round env req name = site_round_on env req name (get_mirror_pool_metadata env name)

unfoldable pub continued : MirrorRun → History × Next → History × Option ReplicationError
continued rest (history, go_on) = rest history
continued rest (history, return_nil) = (history, none)
continued rest (history, return_error e) = (history, some e)

unfoldable pub site_loop : Env → RbdReplicationRequest → List String → MirrorRun
unfolding continued site_round
site_loop env req [] history = (history, none)
site_loop env req (p ∷ ps) history = continued (site_loop env req ps) (site_round env req p history)

-- handleSiteOp.
unfoldable pub handle_site_op : Env → RbdReplicationRequest → MirrorRun
unfolding site_loop list_pools
handle_site_op env req = site_loop env req (list_pools env.pools)

-- DemoteHandler.
unfoldable pub demote_handler : Env → RbdReplicationRequest → MirrorRun
unfolding handle_site_op stop
demote_handler env req = if not req.is_force_op then stop needs_force else handle_site_op env req

reported : Option String → MirrorRun
reported none history = (history, none)
reported (some message) history = (history, some (command_failed message))

-- RbdReplicationHandler as a ReplicationHandlerInterface.
unfoldable pub rbd_handler : Env → RbdReplicationHandler → ReplicationHandler History
unfolding get_resource_state enable_handler disable_handler configure_handler handle_site_op
    demote_handler reported stop
rbd_handler env rh = record {
  resource_state = λ _. ok (get_resource_state rh);
  run_handler = λ event. elim event [
    | enable_replication ↦ enable_handler env rh
    | disable_replication ↦ disable_handler env rh
    | configure_replication ↦ configure_handler env rh
    | list_replication ↦ reported (env.report rh)
    | status_replication ↦ reported (env.report rh)
    | promote_replication ↦ handle_site_op env rh.request
    | demote_replication ↦ demote_handler env rh.request
    | other text ↦ stop (not_permitted (other text) (get_resource_state rh))
  ];
}
