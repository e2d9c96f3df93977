-- ===== src/Replication/Mirrored.antt =====
-- Which pools a site operation concerns: ListPools of microceph/ceph/osd.go and the tests of
-- handleSiteOp in microceph/ceph/replication_rbd.go, against a description.
use microceph.Prelude.{
  map, ◌++◌, ◌⊎◌, ◌==◌, some, string_eq, String, List, [], ◌∷◌, Bool, true, false, Option, none,
  ◌≡◌, refl, ap, Bool-cases, inl, inr, Result, ok, err, arith, if◌then◌else◌,
}
use microceph.Replication.{ReplicationState, disabled, enabled, invalid, is_enabled_state}
use microceph.Replication.Rbd.{
  CephPool, matching, padding, list_pools, Peer, PoolInfo, PoolStatus, RbdReplicationRequest,
}
use microceph.Replication.Site.{is_peer_registered, takes_part}

-- Whether a pool is mirrored with the remote of the request, by what could be read of it.
abbrev pub eligible : RbdReplicationRequest → Result String (PoolStatus × PoolInfo) → Bool
eligible req (err message) = false
eligible req (ok found) = takes_part req found

-- The names that a site operation goes over: those of the pools with the application, in order, and
-- then an empty name for every other pool.
abbrev pub with_application : List CephPool → List CephPool
with_application [] = []
with_application (p ∷ ps) =
    if p.has_application then p ∷ with_application ps else with_application ps

abbrev pub blank_for : List CephPool → List String
blank_for [] = []
blank_for (p ∷ ps) = if p.has_application then blank_for ps else "" ∷ blank_for ps

abbrev pub scanned : Option (List CephPool) → List String
scanned none = []
scanned (some pools) = map (λ (p : CephPool). p.name) (with_application pools) ++ blank_for pools

matching-map :
    (pools : List CephPool)
    → matching pools ≡ map (λ (p : CephPool). p.name) (with_application pools)
unfolding matching
matching-map [] = refl
matching-map (p ∷ ps) = ground (arith, matching-map ps)

padding-blank : (pools : List CephPool) → padding pools ≡ blank_for pools
unfolding padding
padding-blank [] = refl
padding-blank (p ∷ ps) = ground (arith, padding-blank ps)

pub list_pools-scanned : (pools : Option (List CephPool)) → list_pools pools ≡ scanned pools
unfolding list_pools
list_pools-scanned none = refl
list_pools-scanned (some pools) = rw (matching-map pools, padding-blank pools) refl

-- A peer of the pool is the site of the name.
abbrev pub HasPeer : String → List Peer → Type 0
HasPeer name [] = ⊥
HasPeer name (p ∷ ps) = (p.remote_name ≡ name) ⊎ HasPeer name ps

-- A pool that reads as mirrored, and with the remote of the request.
abbrev pub IsMirrored : RbdReplicationRequest → Result String (PoolStatus × PoolInfo) → Type 0
IsMirrored req (err message) = ⊥
IsMirrored req (ok (status, info)) = (status.state ≡ enabled) × HasPeer req.remote_name info.peers

registered-HasPeer :
    (name : String) (ps : List Peer) → is_peer_registered name ps ≡ true → HasPeer name ps
unfolding is_peer_registered
registered-HasPeer name [] h = let bad : false ≡ true = h in cc
registered-HasPeer name (p ∷ ps) h = elim (Bool-cases (p.remote_name == name)) [
  | inl e ↦ inl ((string_eq.beq_iff p.remote_name name).0 e)
  | inr e ↦ inr (registered-HasPeer name ps (ground arith))
]

HasPeer-registered :
    (name : String) (ps : List Peer) → HasPeer name ps → is_peer_registered name ps ≡ true
unfolding is_peer_registered
HasPeer-registered name [] h = elim h [ ]
HasPeer-registered name (p ∷ ps) (inl e) =
    let same = (string_eq.beq_iff p.remote_name name).1 e in ground arith
HasPeer-registered name (p ∷ ps) (inr there) =
    let later = HasPeer-registered name ps there in ground arith

enabled_only : (state : ReplicationState) → is_enabled_state state ≡ true → state ≡ enabled
enabled_only enabled h = refl
enabled_only disabled h = let bad : false ≡ true = h in cc
enabled_only invalid h = let bad : false ≡ true = h in cc

pub eligible-IsMirrored :
    (req : RbdReplicationRequest) (m : Result String (PoolStatus × PoolInfo))
    → eligible req m ≡ true
    → IsMirrored req m
unfolding takes_part
eligible-IsMirrored req (err message) h = let bad : false ≡ true = h in cc
eligible-IsMirrored req (ok (status, info)) h = (
  enabled_only status.state (ground arith),
  registered-HasPeer req.remote_name info.peers (ground arith),
)

pub IsMirrored-eligible :
    (req : RbdReplicationRequest) (m : Result String (PoolStatus × PoolInfo))
    → IsMirrored req m
    → eligible req m ≡ true
unfolding takes_part
IsMirrored-eligible req (err message) h = elim h [ ]
IsMirrored-eligible req (ok (status, info)) (on, peer) =
    let registered = HasPeer-registered req.remote_name info.peers peer in
    let state : is_enabled_state status.state ≡ true = ap is_enabled_state on in ground arith
