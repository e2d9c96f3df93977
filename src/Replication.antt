-- ===== src/Replication.antt =====
-- The replication state machine of microceph/ceph/replication.go, the requests of
-- microceph/api/types/replication.go, and handleReplicationRequest of
-- microceph/api/ops_replication.go.
pub mod Rbd
pub mod Site
pub mod Demotion
pub mod Mirrored
pub mod Promotion
pub mod Disablement
use microceph.Prelude.{
  String, List, [], ◌∷◌, Bool, true, false, Option, none, some, Action, Result, ok, err,
  if◌then◌else◌,
}

-- The triggers of the state machine; `other` is any text that is none of the constants.
pub data Event : Type 0 where
  enable_replication disable_replication configure_replication list_replication : Event
  status_replication promote_replication demote_replication : Event
  other : String → Event

-- A request type: the constant that names an event, or another text with the event that
-- GetWorkloadRequestTypeGeneric cuts out of it.
pub data RequestType : Type 0 where
  known unlisted : Event → RequestType

-- GetWorkloadRequestTypeGeneric.
unfoldable pub event_of : RequestType → Event
event_of (known e) = e
event_of (unlisted e) = e

pub data ReplicationState : Type 0 where
  disabled enabled invalid : ReplicationState

abbrev pub is_enabled_state : ReplicationState → Bool
is_enabled_state enabled = true
is_enabled_state _ = false

-- The transitions that GetReplicationStateMachine configures: the next state. Each runs the handler
-- of its event, on entry or within the state.
unfoldable pub transition : ReplicationState → Event → Option ReplicationState
transition disabled enable_replication = some enabled
transition disabled disable_replication = some disabled
transition disabled list_replication = some disabled
transition disabled promote_replication = some disabled
transition disabled demote_replication = some disabled
transition enabled disable_replication = some disabled
transition enabled configure_replication = some enabled
transition enabled list_replication = some enabled
transition enabled status_replication = some enabled
transition enabled promote_replication = some enabled
transition enabled demote_replication = some enabled
transition state event = none

pub data ReplicationError : Type 0 where
  not_permitted : Event → ReplicationState → ReplicationError
  no_remote unsupported_snapshots unsupported_mode images_mirrored unhealthy : ReplicationError
  unknown_resource needs_force no_peer several_peers remote_mismatch : ReplicationError
  remote_not_imported force_prompt incomplete_name : ReplicationError
  metadata_unread command_failed : String → ReplicationError

-- ReplicationHandlerInterface; PreFill and GetResourceState give the state of the resource.
pub record ReplicationHandler (S : Type 0) : Type 0 where
  pub resource_state : S → Result ReplicationError ReplicationState
  pub run_handler : Event → Action S ReplicationError

unfoldable pub fired :
    {S : Type 0}
    → ReplicationHandler S
    → ReplicationState
    → Event
    → Option ReplicationState
    → Action S ReplicationError
fired handler state event none s = (s, some (not_permitted event state))
fired handler state event (some next) s = handler.run_handler event s

unfoldable pub handled :
    {S : Type 0}
    → ReplicationHandler S
    → Event
    → Result ReplicationError ReplicationState
    → Action S ReplicationError
unfolding fired transition
handled handler event (err e) s = (s, some e)
handled handler event (ok state) s = fired handler state event (transition state event) s

-- handleReplicationRequest.
unfoldable pub handle_replication_request :
    {S : Type 0} → ReplicationHandler S → RequestType → Action S ReplicationError
unfolding handled event_of
handle_replication_request handler request s =
    handled handler (event_of request) (handler.resource_state s) s
