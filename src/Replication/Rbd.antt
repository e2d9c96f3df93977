-- ===== src/Replication/Rbd.antt =====
-- The handlers of microceph/ceph/replication_rbd.go, and ListPools of microceph/ceph/osd.go.
use microceph.Prelude.{
  ℕ, String, List, [], ◌∷◌, ◌++◌, Bool, true, false, not, ◌&&◌, ◌||◌, Option, none, some, ◌==◌,
  string_eq, nat_eq, Action, ◌>>◌, skip, for_each, Result, ok, err, if◌then◌else◌,
}
use microceph.Replication.{
  RequestType, ReplicationState, disabled, ReplicationError, no_remote, incomplete_name,
  unsupported_snapshots, unsupported_mode, images_mirrored, unhealthy, unknown_resource, no_peer,
  several_peers, remote_mismatch, remote_not_imported, command_failed,
}

-- The mode of a pool and the resource of a request; `unknown` is any other text.
pub data RbdResourceType : Type 0 where
  off pool image : RbdResourceType
  unknown : String → RbdResourceType

pub data RbdReplicationType : Type 0 where
  disable journal snapshot : RbdReplicationType
  other_type : String → RbdReplicationType

-- A pool of `ceph osd pool ls detail`, and whether it has the application.
pub record CephPool : Type 0 where
  pub name : String
  pub has_application : Bool

unfoldable pub matching : List CephPool → List String
matching [] = []
matching (p ∷ ps) = let rest = matching ps in if p.has_application then p.name ∷ rest else rest

unfoldable pub padding : List CephPool → List String
padding [] = []
padding (p ∷ ps) = let rest = padding ps in if p.has_application then rest else "" ∷ rest

-- The names in the result of ListPools with an application: a slice as long as the whole list, of
-- which the matches fill the front and the rest is left empty; `none` where the list cannot be read.
unfoldable pub list_pools : Option (List CephPool) → List String
unfolding matching padding
list_pools none = []
list_pools (some pools) = matching pools ++ padding pools

pub record Peer : Type 0 where
  pub id : String
  pub remote_name : String

pub record RemoteRecord : Type 0 where
  pub name : String
  pub local_name : String

pub record PoolInfo : Type 0 where
  pub mode : RbdResourceType
  pub peers : List Peer

pub record PoolStatus : Type 0 where
  pub state : ReplicationState
  pub image_count : ℕ
  pub healthy : Bool

-- What `rbd mirror pool status` prints of a pool, with the counts of its images by state.
pub record PoolSummary : Type 0 where
  pub description : List ℕ
  pub healthy : Bool

pub record RbdReplicationRequest : Type 0 where
  pub source_pool : String
  pub source_image : String
  pub remote_name : String
  pub replication_type : RbdReplicationType
  pub resource_type : RbdResourceType
  pub request_type : RequestType
  pub schedule : String
  pub is_force_op : Bool
  pub skip_auto_enable : Bool

-- RbdReplicationHandler, as PreFill leaves it.
pub record RbdReplicationHandler : Type 0 where
  pub pool_info : PoolInfo
  pub pool_status : PoolStatus
  pub image_state : ReplicationState
  pub request : RbdReplicationRequest

-- The calls of microceph/ceph/rbd_mirror.go that change something.
pub data MirrorCall : Type 0 where
  enable_pool_mirroring : String → RbdResourceType → String → String → MirrorCall
  disable_pool_mirroring : String → Peer → String → String → MirrorCall
  disable_all_images : String → MirrorCall
  enable_image_features disable_journaling : String → String → MirrorCall
  configure_image : RbdReplicationRequest → RbdReplicationType → MirrorCall
  promote_pool : String → Bool → MirrorCall
  demote_pool resync_images : String → MirrorCall
  add_schedule : String → String → String → MirrorCall

-- What has been called, newest first.
abbrev pub History : Type 0
History = List MirrorCall

-- What the calls answer, which may depend on all earlier ones, and the queries. `non_primary` tells
-- whether the text of an error says that a pool is not primary, and `report` the outcome of a list
-- or a status, which only read. Of the queries about a pool, `none` is a command that failed, and an
-- error one whose output cannot be read.
pub record Env : Type 0 where
  pub answer : History → MirrorCall → Option String
  pub remotes : String → Result String (List RemoteRecord)
  pub images : String → List String
  pub pools : Option (List CephPool)
  pub status_output : String → Option (Result String PoolSummary)
  pub info_output : String → Option (Result String PoolInfo)
  pub non_primary : String → Bool
  pub current_schedule : String → String → Result String String
  pub report : RbdReplicationHandler → Option String

abbrev pub MirrorRun : Type 0
MirrorRun = Action History ReplicationError

unfoldable pub command_failure : Option String → Option ReplicationError
command_failure none = none
command_failure (some message) = some (command_failed message)

unfoldable pub call : Env → MirrorCall → MirrorRun
unfolding command_failure
call env c history = (c ∷ history, command_failure (env.answer history c))

-- GetResourceState.
unfoldable pub get_resource_state : RbdReplicationHandler → ReplicationState
get_resource_state rh = elim rh.request.resource_type [
  | image ↦ rh.image_state
  | _ ↦ rh.pool_status.state
]

remotes_found : Result String (List RemoteRecord) → Result ReplicationError (List RemoteRecord)
remotes_found (err message) = err (command_failed message)
remotes_found (ok []) = err no_remote
remotes_found (ok (r ∷ rs)) = ok (r ∷ rs)

-- getRemoteRecords.
unfoldable pub get_remote_records : Env → String → Result ReplicationError (List RemoteRecord)
unfolding remotes_found
get_remote_records env name = remotes_found (env.remotes name)

-- Whether all further peers name the site of the first.
unfoldable pub same_site : String → List Peer → Bool
same_site site [] = true
same_site site (p ∷ ps) = p.remote_name == site && same_site site ps

unfoldable pub find_remote : String → List RemoteRecord → Option RemoteRecord
find_remote site [] = none
find_remote site (r ∷ rs) = if r.name == site then some r else find_remote site rs

unfoldable pub found_remote :
    String → Peer → Option RemoteRecord → Result ReplicationError (RemoteRecord × Peer)
found_remote requested peer (some r) = ok (r, peer)
found_remote requested peer none =
    if not (requested == "") then err remote_mismatch else err remote_not_imported

-- resolvePoolRemote.
unfoldable pub resolve_pool_remote :
    String → List Peer → List RemoteRecord → Result ReplicationError (RemoteRecord × Peer)
unfolding same_site find_remote found_remote
resolve_pool_remote requested [] remotes = err no_peer
resolve_pool_remote requested (peer ∷ others) remotes =
    if same_site peer.remote_name others
    then found_remote requested peer (find_remote peer.remote_name remotes)
    else err several_peers

unfoldable pub stop : ReplicationError → MirrorRun
stop e history = (history, some e)

unfoldable pub disable_on :
    Env → String → Bool → Result ReplicationError (RemoteRecord × Peer) → MirrorRun
unfolding call stop
disable_on env name in_pool_mode (err e) = stop e
disable_on env name in_pool_mode (ok (remote, peer)) =
    (if in_pool_mode then call env (disable_all_images name) else skip)
    >> call env (disable_pool_mirroring name peer remote.local_name remote.name)

abbrev pub is_pool : RbdResourceType → Bool
is_pool pool = true
is_pool _ = false

abbrev pub is_off : RbdResourceType → Bool
is_off off = true
is_off _ = false

abbrev pub is_image : RbdResourceType → Bool
is_image image = true
is_image _ = false

-- handlePoolDisablement.
unfoldable pub handle_pool_disablement : Env → RbdReplicationHandler → List RemoteRecord → MirrorRun
unfolding disable_on resolve_pool_remote stop
handle_pool_disablement env rh remotes =
    let req = rh.request in
    if is_off rh.pool_info.mode
    then skip
    else if not rh.pool_status.healthy && not req.is_force_op
    then stop unhealthy
    else if is_image rh.pool_info.mode && not (rh.pool_status.image_count == 0)
    then stop images_mirrored
    else disable_on env req.source_pool (is_pool rh.pool_info.mode)
        (resolve_pool_remote req.remote_name rh.pool_info.peers remotes)

-- handleImageDisablement.
unfoldable pub handle_image_disablement : Env → RbdReplicationHandler → MirrorRun
unfolding call
handle_image_disablement env rh =
    let req = rh.request in
    if is_off rh.pool_info.mode
    then skip
    else if (elim rh.image_state [ disabled ↦ true | _ ↦ false ])
    then skip
    else if is_pool rh.pool_info.mode
    then call env (disable_journaling req.source_pool req.source_image)
    else call env (configure_image req disable)

enabled_images : Env → RbdReplicationRequest → MirrorRun
unfolding call
enabled_images env req =
    if req.skip_auto_enable
    then skip
    else for_each (λ name. call env (enable_image_features req.source_pool name))
        (env.images req.source_pool)

-- handlePoolEnablement.
unfoldable pub handle_pool_enablement : Env → RbdReplicationHandler → String → String → MirrorRun
unfolding call stop enabled_images
handle_pool_enablement env rh local_site remote_site =
    let req = rh.request in
    if is_pool rh.pool_info.mode
    then skip
    else if is_image rh.pool_info.mode && not (rh.pool_status.image_count == 0)
    then stop images_mirrored
    else (call env (enable_pool_mirroring req.source_pool pool local_site remote_site)
        >> enabled_images env req)

is_journal : RbdReplicationType → Bool
is_journal journal = true
is_journal _ = false

-- handleImageEnablement.
unfoldable pub handle_image_enablement : Env → RbdReplicationHandler → String → String → MirrorRun
unfolding call stop is_journal
handle_image_enablement env rh local_site remote_site =
    let req = rh.request in
    let configured = call env (configure_image req req.replication_type) in
    if is_off rh.pool_info.mode
    then (call env (enable_pool_mirroring req.source_pool image local_site remote_site)
        >> configured)
    else if is_pool rh.pool_info.mode
    then (if is_journal req.replication_type
        then call env (enable_image_features req.source_pool req.source_image)
        else stop unsupported_mode)
    else configured

enabled_at : Env → RbdReplicationHandler → RbdResourceType → RemoteRecord → MirrorRun
unfolding stop handle_pool_enablement handle_image_enablement
enabled_at env rh pool remote = elim rh.request.replication_type [
  | snapshot ↦ stop unsupported_snapshots
  | _ ↦ handle_pool_enablement env rh remote.local_name remote.name
]
enabled_at env rh image remote = handle_image_enablement env rh remote.local_name remote.name
enabled_at env rh _ remote = stop unknown_resource

with_first : (RemoteRecord → MirrorRun) → Result ReplicationError (List RemoteRecord) → MirrorRun
unfolding stop
with_first f (err e) = stop e
with_first f (ok []) = stop no_remote
with_first f (ok (r ∷ rs)) = f r

-- EnableHandler.
unfoldable pub enable_handler : Env → RbdReplicationHandler → MirrorRun
unfolding with_first enabled_at get_remote_records
enable_handler env rh =
    with_first (enabled_at env rh rh.request.resource_type)
      (get_remote_records env rh.request.remote_name)

disabled_at : Env → RbdReplicationHandler → RbdResourceType → List RemoteRecord → MirrorRun
unfolding stop handle_pool_disablement handle_image_disablement
disabled_at env rh pool remotes = handle_pool_disablement env rh remotes
disabled_at env rh image remotes = handle_image_disablement env rh
disabled_at env rh _ remotes = stop unknown_resource

with_records :
    (List RemoteRecord → MirrorRun) → Result ReplicationError (List RemoteRecord) → MirrorRun
unfolding stop
with_records f (err e) = stop e
with_records f (ok remotes) = f remotes

-- DisableHandler.
unfoldable pub disable_handler : Env → RbdReplicationHandler → MirrorRun
unfolding with_records disabled_at get_remote_records
disable_handler env rh =
    with_records (disabled_at env rh rh.request.resource_type)
      (get_remote_records env rh.request.remote_name)

scheduled : Env → RbdReplicationRequest → Result String String → MirrorRun
unfolding stop call
scheduled env req (err message) = stop (command_failed message)
scheduled env req (ok current) =
    if req.schedule == current
    then skip
    else if req.schedule == ""
    then skip
    else call env (add_schedule req.source_pool req.source_image req.schedule)

-- ConfigureHandler, whose schedule is read only for a pool and an image that are named.
unfoldable pub configure_handler : Env → RbdReplicationHandler → MirrorRun
unfolding scheduled stop
configure_handler env rh =
    let req = rh.request in
    if req.source_pool == "" || req.source_image == ""
    then stop incomplete_name
    else scheduled env req (env.current_schedule req.source_pool req.source_image)
