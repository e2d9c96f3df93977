-- ===== src/Tests/Replicas.antt =====
-- A site that mirrors two pools with one remote.
use microceph.Prelude.{
  List, [], ◌∷◌, ◌++◌, true, false, none, some, Option, ap, ◌||◌, ◌≡◌, ◌≢◌, refl, ◌==◌, string_eq,
  nat_eq, ok, arith, if◌then◌else◌,
}
use microceph.Replication.{
  ReplicationError, known, promote_replication, demote_replication, disabled, enabled, invalid,
  command_failed, handle_replication_request,
}
use microceph.Replication.Rbd.{
  pool, journal, Peer, RemoteRecord, PoolInfo, PoolStatus, RbdReplicationRequest,
  RbdReplicationHandler, demote_pool, promote_pool, PoolSummary, History, Env, list_pools,
  get_resource_state, handle_pool_disablement,
}
use microceph.Replication.Site.{
  handle_pool_demotion, handle_site_op, rbd_handler, takes_part, get_mirror_pool_metadata,
}
use microceph.Replication.Mirrored.{eligible}
use microceph.Replication.Promotion.{PromotesMirrored, site_op-promotes}
use microceph.Replication.Demotion.{reached, demotion-swallowed}
use microceph.Replication.Disablement.{MayDisable, disablement-checked}

abbrev peer : Peer
peer = record { id = "p1"; remote_name = "east" }

abbrev mirrored : PoolStatus × PoolInfo
mirrored = (
  record { state = enabled; image_count = 3; healthy = true },
  record { mode = pool; peers = peer ∷ [] },
)

abbrev summary : PoolSummary
summary = record { description = 1 ∷ 2 ∷ []; healthy = true }

-- The pool `c` is no RBD pool, and `d` is not mirrored; the demotion of `b` fails.
abbrev env : Env
env = record {
  answer =
      λ _ c. elim c [ demote_pool name ↦ (if name == "b" then some "busy" else none) | _ ↦ none ];
  remotes = λ _. ok (record { name = "east"; local_name = "west" } ∷ []);
  images = λ _. [];
  pools = some (
      record { name = "a"; has_application = true }
      ∷ record { name = "c"; has_application = false }
      ∷ record { name = "d"; has_application = true }
      ∷ record { name = "b"; has_application = true }
      ∷ []);
  status_output = λ name. if name == "" || name == "d" then none else some (ok summary);
  info_output = λ name. if name == "" then none else some (ok mirrored.1);
  non_primary = λ _. false;
  current_schedule = λ _ _. ok "";
  report = λ _. none;
}

abbrev request : RbdReplicationRequest
request = record {
  source_pool = "a";
  source_image = "";
  remote_name = "east";
  replication_type = journal;
  resource_type = pool;
  request_type = known promote_replication;
  schedule = "";
  is_force_op = true;
  skip_auto_enable = false;
}

promoted_both :
    handle_site_op env request [] ≡ (promote_pool "b" true ∷ promote_pool "a" true ∷ [], none)
unfolding handle_site_op
promoted_both = refl

site_op-promotes_example : PromotesMirrored env request [] (handle_site_op env request []).0
site_op-promotes_example =
    site_op-promotes env request [] refl
      (ap (λ (r : History × Option ReplicationError). r.1) promoted_both)

abbrev handler : RbdReplicationHandler
handler = record {
  pool_info = mirrored.1;
  pool_status = mirrored.0;
  image_state = disabled;
  request = record request { request_type = known demote_replication };
}

-- The pools in the other order: `b` fails, and `a` stands behind it.
abbrev b_first : Env
b_first = record env {
  pools = some (
      record { name = "b"; has_application = true }
      ∷ record { name = "a"; has_application = true }
      ∷ []);
}

valid_state : get_resource_state handler ≢ invalid
unfolding get_resource_state
valid_state e = cc

b_fails : (handle_pool_demotion b_first "b" []).1 ≡ some (command_failed "busy")
unfolding handle_pool_demotion
b_fails = refl

listed_b : list_pools b_first.pools ≡ [] ++ "b" ∷ "a" ∷ []
unfolding list_pools
listed_b = refl

none_before : reached b_first handler.request [] [] ≡ some []
unfolding reached
none_before = refl

b_takes_part : eligible handler.request (get_mirror_pool_metadata b_first "b") ≡ true
unfolding takes_part get_mirror_pool_metadata
b_takes_part = refl

demotion-swallowed_example :
    handle_replication_request (rbd_handler b_first handler) (known demote_replication) []
    ≡ ((handle_pool_demotion b_first "b" []).0, none)
demotion-swallowed_example =
    demotion-swallowed b_first handler [] ("a" ∷ []) "b" [] [] (command_failed "busy") refl refl
      valid_state listed_b none_before b_takes_part b_fails

abbrev remotes : List RemoteRecord
remotes = record { name = "east"; local_name = "west" } ∷ []

calls_made : (handle_pool_disablement env handler remotes []).0 ≢ []
unfolding handle_pool_disablement
calls_made e = ground arith

disablement-checked_example : MayDisable handler remotes
disablement-checked_example = disablement-checked env handler remotes [] calls_made
