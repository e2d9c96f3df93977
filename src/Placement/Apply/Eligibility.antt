-- ===== src/Placement/Apply/Eligibility.antt =====
-- Which members may enrol OSDs after an apply: checkStorageEligibility of microceph/ceph/osd.go.
use microceph.Prelude.{
  String, [], ◌∷◌, Bool, true, false, Option, none, some, ◌≡◌, refl, sym, ◌∙◌, ◌↔◌, string_eq,
  Result, ok, err, ◌>>=◌, lookup, arith,
}
use microceph.Placement.Policy.{RgwPlacement, MemberPlacement, Members, PlacementPolicy}
use microceph.Placement.Rgw.{Tls}
use microceph.Placement.Errors.{PlacementError}
use microceph.Placement.Store.{
  PlacementPolicyRecord, policy_for_storage, strip_members, without_material,
  check_storage_eligibility, check_entry,
}
use microceph.Placement.Apply.{
  Cluster, normalize_entry, normalize_members, normalize_placement, validate_placement,
  apply_placement_policy,
}
use microceph.Placement.Apply.Stored.{accepted, checked, apply-accepted}

abbrev grant_of : Option MemberPlacement → Bool
grant_of none = false
grant_of (some mp) = elim mp.storage_eligible [ some true ↦ true | _ ↦ false ]

-- The member has an entry, and the entry says storage_eligible:true.
abbrev pub is_eligible : String → Members → Bool
is_eligible name members = grant_of (lookup name members)

strip-eligible :
    (name : String) (ms : Members) → is_eligible name (strip_members ms) ≡ is_eligible name ms
unfolding strip_members without_material lookup
strip-eligible name [] = refl
strip-eligible name ((m, mp) ∷ rest) = ground (arith, strip-eligible name rest)

entry-eligible :
    (tls : Tls) (name : String) (mp mp' : MemberPlacement) (o : Option RgwPlacement)
    → normalize_entry tls name mp o ≡ ok mp'
    → mp'.storage_eligible ≡ mp.storage_eligible
unfolding normalize_entry
entry-eligible tls name mp mp' none h = ground arith
entry-eligible tls name mp mp' (some r) h = ground arith

cons-eligible :
    (name m : String) (mp : MemberPlacement) (rest ns : Members)
    (e : Result PlacementError MemberPlacement) (r : Result PlacementError Members)
    → ((mp' : MemberPlacement) → e ≡ ok mp' → mp'.storage_eligible ≡ mp.storage_eligible)
    → ((rest' : Members) → r ≡ ok rest' → is_eligible name rest' ≡ is_eligible name rest)
    → (e >>= λ mp'. r >>= λ rest'. ok ((m, mp') ∷ rest')) ≡ ok ns
    → is_eligible name ns ≡ is_eligible name ((m, mp) ∷ rest)
unfolding lookup
cons-eligible name m mp rest ns (ok mp') (ok rest') same tail h =
    ground (arith, same mp' refl, tail rest' refl)
cons-eligible name m mp rest ns (ok mp') (err x) same tail h = cc
cons-eligible name m mp rest ns (err x) r same tail h = cc

normalize-eligible :
    (tls : Tls) (name : String) (ms ns : Members)
    → normalize_members tls ms ≡ ok ns
    → is_eligible name ns ≡ is_eligible name ms
unfolding normalize_members
normalize-eligible tls name [] ns h = ground arith
normalize-eligible tls name ((m, mp) ∷ rest) ns h =
    cons-eligible name m mp rest ns (normalize_entry tls m mp mp.rgw) (normalize_members tls rest)
      (λ mp' k. entry-eligible tls m mp mp' mp.rgw k)
      (λ rest' k. normalize-eligible tls name rest rest' k) h

normal-eligible :
    (cluster : Cluster) (name : String) (policy n : PlacementPolicy)
    (r : Result PlacementError Members)
    → ((ns : Members) → r ≡ ok ns → is_eligible name ns ≡ is_eligible name policy.members)
    → ((r >>= λ members. ok (record policy { members = members })) >>= λ n.
        checked n (validate_placement cluster n))
      ≡ ok n
    → is_eligible name n.members ≡ is_eligible name policy.members
normal-eligible cluster name policy n (err x) same h = cc
normal-eligible cluster name policy n (ok ns) same h =
    let m : PlacementPolicy = record policy { members = ns } in
    checked-eligible m n (validate_placement cluster m) h ∙ same ns refl
  where
    checked-eligible :
        (m n : PlacementPolicy) (o : Option PlacementError)
        → checked m o ≡ ok n
        → is_eligible name n.members ≡ is_eligible name m.members
    checked-eligible m n none h = ground arith
    checked-eligible m n (some e) h = cc

accepted-eligible :
    (cluster : Cluster) (name : String) (policy n : PlacementPolicy)
    → accepted cluster policy ≡ ok n
    → is_eligible name n.members ≡ is_eligible name policy.members
unfolding normalize_placement
accepted-eligible cluster name policy n h =
    normal-eligible cluster name policy n (normalize_members cluster.tls policy.members)
      (λ ns k. normalize-eligible cluster.tls name policy.members ns k) h

entry_granted : (o : Option MemberPlacement) → (check_entry o ≡ none) ↔ (grant_of o ≡ true)
unfolding check_entry
entry_granted none = ground arith
entry_granted (some mp) = ground arith

-- After an accepted apply a member may enrol OSDs exactly where the new policy alone grants it,
-- whatever the policy that it replaced said: an omitted grant is revoked. Both transactions are
-- assumed to run.
pub apply-eligibility :
    (cluster : Cluster) (policy n : PlacementPolicy) (r : PlacementPolicyRecord) (name : String)
    → cluster.refusal_fault ≡ none
    → cluster.store_fault ≡ none
    → accepted cluster policy ≡ ok n
    → (check_storage_eligibility name (apply_placement_policy cluster policy (some r)).0.row ≡ none)
      ↔ (is_eligible name policy.members ≡ true)
unfolding check_storage_eligibility check_entry policy_for_storage
apply-eligibility cluster policy n r name quiet stores h =
    rw
      (
        apply-accepted cluster quiet stores policy n r h,
        sym (strip-eligible name n.members ∙ accepted-eligible cluster name policy n h),
      )
      (entry_granted (lookup name (strip_members n.members)))
