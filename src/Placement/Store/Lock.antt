-- ===== src/Placement/Store/Lock.antt =====
-- The lease of the cluster-wide apply lock: microceph/database/placement_policy_extras.go.
use microceph.Prelude.{
  ℕ, ◌+◌, ◌<◌, ◌≤◌, List, [], ◌∷◌, Bool, true, false, Option, none, some, ◌≡◌, refl, ◌≢◌, nat_eq,
  All, arith, if◌then◌else◌,
}
use microceph.Placement.Policy.{PlacementPolicy}
use microceph.Placement.Errors.{RemoteError, PlacementError}
use microceph.Placement.Store.{
  Row, update, transaction, set_placement_policy, clear_placement_policy, set_placement_refusal,
  try_acquire, release, placement_apply_lease, lock_placement_apply, store_placement_policy,
}

-- A transaction on the row, by any member of the cluster.
pub data Event : Type 0 where
  attempt unlock : ℕ → Event
  store : Option RemoteError → PlacementPolicy → Event
  note : Option RemoteError → Option PlacementError → Event
  clear : Event

-- The row after a transaction.
unfoldable pub after : Event → Row → Row
after (attempt now) row = (lock_placement_apply now row).0
after (unlock token) row = (release token row).0
after (store fault policy) row = (store_placement_policy fault policy row).0
after (note fault reason) row = (transaction fault (set_placement_refusal reason) row).0
after clear row = (clear_placement_policy row).0

-- Whether the transaction is an attempt that acquires the lock.
unfoldable pub acquires : Event → Row → Bool
acquires (attempt now) row = elim (lock_placement_apply now row).1 [ some true ↦ true | _ ↦ false ]
acquires _ row = false

unfoldable pub run_events : List Event → Row → Row
unfolding after
run_events [] row = row
run_events (e ∷ es) row = run_events es (after e row)

-- How many attempts of the sequence acquire the lock.
unfoldable pub acquisitions : List Event → Row → ℕ
unfolding after acquires
acquisitions [] row = 0
acquisitions (e ∷ es) row = (if acquires e row then 1 else 0) + acquisitions es (after e row)

abbrev pub token_of : Row → Option ℕ
token_of none = none
token_of (some r) = some r.apply_lock_token

-- Within the lease of `token`, and not the release by its own holder.
abbrev pub IsWithin : ℕ → Event → Type 0
IsWithin token (attempt now) = now ≤ token + placement_apply_lease
IsWithin token (unlock other) = other ≢ token
IsWithin token _ = Unit

after-held :
    (token : ℕ) (e : Event) (row : Row)
    → token ≢ 0
    → IsWithin token e
    → token_of row ≡ some token
    → (token_of (after e row) ≡ some token) × (acquires e row ≡ false)
unfolding after acquires lock_placement_apply try_acquire release store_placement_policy transaction
    set_placement_policy set_placement_refusal clear_placement_policy update
after-held token (attempt now) (some r) held within h = ground arith
after-held token (unlock other) (some r) held within h = ground arith
after-held token (store none policy) (some r) held within h = ground arith
after-held token (store (some f) policy) (some r) held within h = ground arith
after-held token (note none reason) (some r) held within h = ground arith
after-held token (note (some f) reason) (some r) held within h = ground arith
after-held token clear (some r) held within h = ground arith
after-held token _ none held within h = cc

-- While the lease of the lock's holder lasts and the holder does not release it, no transaction of
-- any member takes the lock away: it stays with the holder, and no attempt acquires it.
pub run_events-held :
    (token : ℕ) (es : List Event) (row : Row)
    → token ≢ 0
    → All (IsWithin token) es
    → token_of row ≡ some token
    → (token_of (run_events es row) ≡ some token) × (acquisitions es row ≡ 0)
unfolding run_events acquisitions
run_events-held token [] row held within h = (h, refl)
run_events-held token (e ∷ es) row held within h =
    let (still, idle) = after-held token e row held within.0 h in
    let (last, none_later) = run_events-held token es (after e row) held within.1 still in
    (last, rw (idle, none_later))

-- An attempt later than the lease reclaims an abandoned lock; the late release by the abandoned
-- holder then leaves it with the reclaimer.
pub lock-reclaimed :
    (token now : ℕ) (row : Row)
    → token_of row ≡ some token
    → token + placement_apply_lease < now
    → (acquires (attempt now) row ≡ true)
      × (token_of (run_events (attempt now ∷ unlock token ∷ []) row) ≡ some now)
unfolding run_events after acquires lock_placement_apply try_acquire release
lock-reclaimed token now (some r) h late = ground arith
lock-reclaimed token now none h late = cc
