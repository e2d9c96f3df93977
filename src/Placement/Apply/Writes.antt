-- ===== src/Placement/Apply/Writes.antt =====
-- The transactions of ApplyPlacementPolicy, microceph/ceph/placement.go, on the row.
use microceph.Prelude.{
  List, [], ◌∷◌, Option, none, some, ◌≡◌, refl, All, Result, ok, err, ap, ◌∙◌, sym, subst,
}
use microceph.Placement.Policy.{PlacementPolicy}
use microceph.Placement.Errors.{PlacementError}
use microceph.Placement.Engine.{Run}
use microceph.Placement.Reconcile.{reconcile_placement}
use microceph.Placement.Store.{
  Row, transaction, update, set_placement_policy, set_placement_refusal, clear_placement_policy,
  store_placement_policy,
}
use microceph.Placement.Store.Lock.{
  Event, attempt, unlock, store, note, clear, after, run_events, token_of,
}
use microceph.Placement.Store.Secrets.{RowClean, run_events-RowClean}
use microceph.Placement.Apply.{
  Cluster, World, normalize_placement, validate_placement, write_refusal, refuse, apply_valid,
  apply_stored, reconciled, apply_normal, apply_placement_policy,
}

-- A transaction that is not one of the lock.
abbrev pub IsWrite : Event → Type 0
IsWrite (attempt _) = ⊥
IsWrite (unlock _) = ⊥
IsWrite _ = Unit

-- Some sequence of such transactions turns `row` into `row'`.
abbrev pub Writes : Row → Row → Type 0
Writes row row' = (es : List Event) × All IsWrite es × (row' ≡ run_events es row)

module _ (cluster : Cluster) where
  refuse-Writes : (e : PlacementError) (w : World) → Writes w.row (refuse cluster e w).0.row
  unfolding refuse write_refusal run_events after
  refuse-Writes e w = (note cluster.refusal_fault (some e) ∷ [], (tt, tt), refl)

  reconciled-Writes :
      (policy : PlacementPolicy) (row row' : Row) (r : Run × Option PlacementError)
      → (store_placement_policy cluster.store_fault policy row).0 ≡ row'
      → Writes row (reconciled cluster (record { row = row'; calls = [] }) r).0.row
  unfolding reconciled run_events after refuse write_refusal
  reconciled-Writes policy row row' (run, none) h = (
    store cluster.store_fault policy ∷ note cluster.refusal_fault none ∷ [],
    (tt, (tt, tt)),
    rw h refl,
  )
  reconciled-Writes policy row row' (run, some e) h = (
    store cluster.store_fault policy ∷ note cluster.refusal_fault (some e) ∷ [],
    (tt, (tt, tt)),
    rw h refl,
  )

  stored-Writes :
      (policy : PlacementPolicy) (row : Row) (p : Row × Option PlacementError)
      → store_placement_policy cluster.store_fault policy row ≡ p
      → Writes row (apply_stored cluster policy (record { row = row; calls = [] }) p).0.row
  unfolding apply_stored run_events after refuse write_refusal
  stored-Writes policy row (row', some e) h = (
    store cluster.store_fault policy ∷ note cluster.refusal_fault (some e) ∷ [],
    (tt, (tt, tt)),
    ap (λ (q : Row × Option PlacementError). write_refusal cluster (some e) q.0) (sym h),
  )
  stored-Writes policy row (row', none) h =
      reconciled-Writes policy row row' (reconcile_placement cluster.engine policy)
        (ap (λ q. q.0) h)

  valid-Writes :
      (policy : PlacementPolicy) (row : Row) (o : Option PlacementError)
      → Writes row (apply_valid cluster policy (record { row = row; calls = [] }) o).0.row
  unfolding apply_valid
  valid-Writes policy row (some e) = refuse-Writes e (record { row = row; calls = [] })
  valid-Writes policy row none =
      stored-Writes policy row (store_placement_policy cluster.store_fault policy row) refl

  normal-Writes :
      (row : Row) (r : Result PlacementError PlacementPolicy)
      → Writes row (apply_normal cluster (record { row = row; calls = [] }) r).0.row
  unfolding apply_normal
  normal-Writes row (err e) = refuse-Writes e (record { row = row; calls = [] })
  normal-Writes row (ok policy) = valid-Writes policy row (validate_placement cluster policy)

  pub apply-Writes :
      (policy : PlacementPolicy) (row : Row)
      → Writes row (apply_placement_policy cluster policy row).0.row
  unfolding apply_placement_policy
  apply-Writes policy row = normal-Writes row (normalize_placement cluster.tls policy)

  -- An apply never leaves a certificate or a private key in the row, on any of its paths.
  pub apply-RowClean :
      (policy : PlacementPolicy) (row : Row)
      → RowClean row
      → RowClean (apply_placement_policy cluster policy row).0.row
  apply-RowClean policy row h =
      let (es, _, e) = apply-Writes policy row in
      subst RowClean (sym e) (run_events-RowClean es row h)

write-token : (e : Event) (row : Row) → IsWrite e → token_of (after e row) ≡ token_of row
unfolding after store_placement_policy transaction set_placement_policy set_placement_refusal
    clear_placement_policy update
write-token (store none policy) none h = refl
write-token (store none policy) (some r) h = refl
write-token (store (some f) policy) row h = refl
write-token (note none reason) none h = refl
write-token (note none reason) (some r) h = refl
write-token (note (some f) reason) row h = refl
write-token (attempt _) row h = elim h [ ]
write-token (unlock _) row h = elim h [ ]
write-token clear none h = refl
write-token clear (some r) h = refl

pub writes-token :
    (es : List Event) (row : Row) → All IsWrite es → token_of (run_events es row) ≡ token_of row
unfolding run_events
writes-token [] row h = refl
writes-token (e ∷ es) row h = writes-token es (after e row) h.1 ∙ write-token e row h.0

pub apply-token :
    (cluster : Cluster) (policy : PlacementPolicy) (row : Row)
    → token_of (apply_placement_policy cluster policy row).0.row ≡ token_of row
apply-token cluster policy row =
    let (es, w, e) = apply-Writes cluster policy row in ap token_of e ∙ writes-token es row w
