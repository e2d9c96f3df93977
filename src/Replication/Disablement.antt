-- ===== src/Replication/Disablement.antt =====
-- When the mirroring of a pool is disabled: handlePoolDisablement and resolvePoolRemote of
-- microceph/ceph/replication_rbd.go.
use microceph.Prelude.{
  String, List, [], ◌∷◌, Bool, true, false, Option, none, some, ◌≡◌, ◌≢◌, ◌⊎◌, inl, inr, refl, sym,
  ap, ◌∙◌, subst, Bool-cases, ◌==◌, string_eq, nat_eq, All, Occurs, Result, ok, err, arith,
  if◌then◌else◌,
}
use microceph.Replication.{ReplicationError, several_peers}
use microceph.Replication.Rbd.{
  RbdResourceType, off, pool, image, unknown, Peer, RemoteRecord, RbdReplicationHandler, History,
  Env, same_site, find_remote, found_remote, resolve_pool_remote, stop, disable_on,
  handle_pool_disablement,
}

same_site-All :
    (site : String) (ps : List Peer) → same_site site ps ≡ true → All (λ p. p.remote_name ≡ site) ps
unfolding same_site
same_site-All site [] h = tt
same_site-All site (p ∷ ps) h = elim (Bool-cases (p.remote_name == site)) [
  | inl e ↦ ((string_eq.beq_iff p.remote_name site).0 e, same_site-All site ps (ground (arith, e)))
  | inr e ↦ ground (arith, e)
]

find_remote-Occurs :
    (site : String) (rs : List RemoteRecord) (r : RemoteRecord)
    → find_remote site rs ≡ some r
    → Occurs r rs × (r.name ≡ site)
unfolding find_remote
find_remote-Occurs site [] r h = cc
find_remote-Occurs site (x ∷ xs) r h = elim (Bool-cases (x.name == site)) [
  | inl e ↦
      let same : x ≡ r = ground (arith, e) in
      (inl same, ap (λ (t : RemoteRecord). t.name) (sym same) ∙ (string_eq.beq_iff x.name site).0 e)
  | inr e ↦ let (q, named) = find_remote-Occurs site xs r (ground (arith, e)) in (inr q, named)
]

-- All peers of the pool are those of one imported remote.
abbrev pub IsOneSite : List Peer → List RemoteRecord → RemoteRecord → Type 0
IsOneSite peers remotes remote =
    Occurs remote remotes × All (λ p. p.remote_name ≡ remote.name) peers

resolve-IsOneSite :
    (requested : String) (peers : List Peer) (remotes : List RemoteRecord) (remote : RemoteRecord)
    (peer : Peer)
    → resolve_pool_remote requested peers remotes ≡ ok (remote, peer)
    → IsOneSite peers remotes remote
unfolding resolve_pool_remote
resolve-IsOneSite requested [] remotes remote peer h = cc
resolve-IsOneSite requested (p ∷ ps) remotes remote peer h =
    by_tests (same_site p.remote_name ps) (find_remote p.remote_name remotes) refl refl h
  where
    by_tests :
        (b : Bool) (o : Option RemoteRecord)
        → same_site p.remote_name ps ≡ b
        → find_remote p.remote_name remotes ≡ o
        → (if b then found_remote requested p o else err several_peers) ≡ ok (remote, peer)
        → IsOneSite (p ∷ ps) remotes remote
    by_tests false o same found k = cc
    by_tests true none same found k = unfold found_remote in ground arith
    by_tests true (some r) same found k =
        let e : r ≡ remote = unfold found_remote in ground arith in
        let (listed, named) = find_remote-Occurs p.remote_name remotes r found in
        subst (IsOneSite (p ∷ ps) remotes) e (
          listed,
          (
            sym named,
            subst (λ site. All (λ (q : Peer). q.remote_name ≡ site) ps) (sym named)
                (same_site-All p.remote_name ps same),
          ),
        )

-- What a disablement of a pool has found before it calls anything.
abbrev pub MayDisable : RbdReplicationHandler → List RemoteRecord → Type 0
MayDisable rh remotes =
    (rh.pool_info.mode ≢ off)
    × ((rh.pool_status.healthy ≡ true) ⊎ (rh.request.is_force_op ≡ true))
    × ((rh.pool_info.mode ≢ image) ⊎ (rh.pool_status.image_count ≡ 0))
    × ((remote : RemoteRecord) × IsOneSite rh.pool_info.peers remotes remote)

module _ (env : Env) (rh : RbdReplicationHandler) (remotes : List RemoteRecord) (h : History) where
  abbrev Moves : Type 0
  Moves = ((handle_pool_disablement env rh remotes h).0 ≡ h) ⊎ MayDisable rh remotes

  refused-Moves :
      (e : ReplicationError)
      → resolve_pool_remote rh.request.remote_name rh.pool_info.peers remotes ≡ err e
      → Moves
  unfolding handle_pool_disablement disable_on stop
  refused-Moves e same = inl (ground (arith, same))

  settled-Moves :
      ((rh.pool_status.healthy ≡ true) ⊎ (rh.request.is_force_op ≡ true))
      → (zero : Bool) (mode : RbdResourceType) (remote : RemoteRecord)
      → (rh.pool_status.image_count == 0) ≡ zero
      → rh.pool_info.mode ≡ mode
      → IsOneSite rh.pool_info.peers remotes remote
      → Moves
  unfolding handle_pool_disablement stop
  settled-Moves trusted zero off remote c d one = inl (ground arith)
  settled-Moves trusted zero pool remote c d one =
      inr (λ e. cc, trusted, inl (λ e. cc), (remote, one))
  settled-Moves trusted zero (unknown text) remote c d one =
      inr (λ e. cc, trusted, inl (λ e. cc), (remote, one))
  settled-Moves trusted true image remote c d one =
      inr (λ e. cc, trusted, inr ((nat_eq.beq_iff rh.pool_status.image_count 0).0 c), (remote, one))
  settled-Moves trusted false image remote c d one = inl (by_trust trusted)
    where
      by_trust :
          (rh.pool_status.healthy ≡ true) ⊎ (rh.request.is_force_op ≡ true)
          → (handle_pool_disablement env rh remotes h).0 ≡ h
      by_trust (inl t) = ground arith
      by_trust (inr t) = ground arith

  resolved-Moves :
      (healthy force zero : Bool) (mode : RbdResourceType) (remote : RemoteRecord)
      → rh.pool_status.healthy ≡ healthy
      → rh.request.is_force_op ≡ force
      → (rh.pool_status.image_count == 0) ≡ zero
      → rh.pool_info.mode ≡ mode
      → IsOneSite rh.pool_info.peers remotes remote
      → Moves
  unfolding handle_pool_disablement stop
  resolved-Moves false false zero mode remote a b c d one = inl (ground arith)
  resolved-Moves true force zero mode remote a b c d one =
      settled-Moves (inl a) zero mode remote c d one
  resolved-Moves false true zero mode remote a b c d one =
      settled-Moves (inr b) zero mode remote c d one

  pool-Moves :
      (r : Result ReplicationError (RemoteRecord × Peer))
      → resolve_pool_remote rh.request.remote_name rh.pool_info.peers remotes ≡ r
      → Moves
  pool-Moves (err e) same = refused-Moves e same
  pool-Moves (ok (remote, peer)) same =
      resolved-Moves rh.pool_status.healthy rh.request.is_force_op (rh.pool_status.image_count == 0)
        rh.pool_info.mode remote refl refl refl refl
        (resolve-IsOneSite rh.request.remote_name rh.pool_info.peers remotes remote peer same)

-- A disablement of a pool that calls anything has found that the pool is mirrored, that it is
-- healthy or the request is forced, that no image is mirrored on its own, and that all its peers
-- are one imported remote of the request.
pub disablement-checked :
    (env : Env) (rh : RbdReplicationHandler) (remotes : List RemoteRecord) (h : History)
    → (handle_pool_disablement env rh remotes h).0 ≢ h
    → MayDisable rh remotes
disablement-checked env rh remotes h moved =
    elim (pool-Moves env rh remotes h
      (resolve_pool_remote rh.request.remote_name rh.pool_info.peers remotes) refl) [
        | inl same ↦ absurd (moved same)
        | inr may ↦ may
      ]
