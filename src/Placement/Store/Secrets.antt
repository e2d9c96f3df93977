-- ===== src/Placement/Store/Secrets.antt =====
-- TLS material and the placement_policy row: policyForStorage of microceph/ceph/placement.go.
use microceph.Prelude.{
  List, [], ◌∷◌, Option, none, some, ◌≡◌, refl, ◌==◌, string_eq, nat_eq, ltb, ◌||◌, ◌-◌, Bool-cases,
  inl, inr,
}
use microceph.Placement.Policy.{RgwPlacement, MemberPlacement, Members, PlacementPolicy}
use microceph.Placement.Store.{
  Row, update, transaction, set_placement_policy, clear_placement_policy, set_placement_refusal,
  try_acquire, release, placement_apply_lease, lock_placement_apply, store_placement_policy,
  policy_for_storage, strip_members, without_material,
}
use microceph.Placement.Store.Lock.{Event, attempt, unlock, store, note, clear, after, run_events}

abbrev pub EntryClean : Option RgwPlacement → Type 0
EntryClean none = Unit
EntryClean (some r) = (r.ssl_certificate ≡ "") × (r.ssl_private_key ≡ "")

abbrev pub MembersClean : Members → Type 0
MembersClean [] = Unit
MembersClean ((_, mp) ∷ rest) = EntryClean mp.rgw × MembersClean rest

abbrev pub PolicyClean : Option PlacementPolicy → Type 0
PolicyClean none = Unit
PolicyClean (some policy) = MembersClean policy.members

-- The stored policy, if any, holds no certificate and no private key.
abbrev pub RowClean : Row → Type 0
RowClean none = Unit
RowClean (some r) = PolicyClean r.policy_json

stripped_rgw :
    (mp : MemberPlacement) (o : Option RgwPlacement)
    → mp.rgw ≡ o
    → EntryClean (without_material mp).rgw
unfolding without_material
stripped_rgw mp none h = rw h tt
stripped_rgw mp (some r) h = rw h (refl, refl)

pub strip_members-clean : (ms : Members) → MembersClean (strip_members ms)
unfolding strip_members
strip_members-clean [] = tt
strip_members-clean ((name, mp) ∷ rest) = (stripped_rgw mp mp.rgw refl, strip_members-clean rest)

after-RowClean : (e : Event) (row : Row) → RowClean row → RowClean (after e row)
unfolding after lock_placement_apply try_acquire release store_placement_policy transaction
    set_placement_policy set_placement_refusal clear_placement_policy update policy_for_storage
after-RowClean (attempt now) none h = tt
after-RowClean (attempt now) (some r) h =
    let free = r.apply_lock_token == 0 || ltb r.apply_lock_token (now - placement_apply_lease) in
    elim (Bool-cases free) [ inl e ↦ rw e h | inr e ↦ rw e h ]
after-RowClean (unlock other) none h = tt
after-RowClean (unlock other) (some r) h = elim (Bool-cases (r.apply_lock_token == other)) [
  | inl e ↦ rw (e, RowClean) h
  | inr e ↦ rw (e, RowClean) h
]
after-RowClean (store none policy) none h = tt
after-RowClean (store none policy) (some r) h = strip_members-clean policy.members
after-RowClean (store (some f) policy) row h = h
after-RowClean (note none reason) none h = tt
after-RowClean (note none reason) (some r) h = h
after-RowClean (note (some f) reason) row h = h
after-RowClean clear none h = tt
after-RowClean clear (some r) h = tt

-- Whatever transactions run on the row, in whatever order, the stored policy never holds a
-- certificate or a private key.
pub run_events-RowClean :
    (es : List Event) (row : Row) → RowClean row → RowClean (run_events es row)
unfolding run_events
run_events-RowClean [] row h = h
run_events-RowClean (e ∷ es) row h = run_events-RowClean es (after e row) (after-RowClean e row h)
