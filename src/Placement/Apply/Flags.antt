-- ===== src/Placement/Apply/Flags.antt =====
-- The `Enabled` flags that applyRgwPlacement reads without a test: normalizePlacement and
-- applyRgwPlacement of microceph/ceph/placement.go.
use microceph.Prelude.{
  String, List, [], ◌∷◌, map, Bool, true, false, Option, none, some, ◌≡◌, refl, ◌≢◌, inl, inr,
  Result, ok, err, ◌>>=◌, arith,
}
use microceph.Placement.Policy.{RgwPlacement, MemberPlacement, Members, PlacementPolicy}
use microceph.Placement.Rgw.{Tls, RgwError, normalized}
use microceph.Placement.Rgw.Ports.{IsNormal, normalized-IsNormal}
use microceph.Placement.Errors.{PlacementError, RgwFailure, nil_dereference, rgw_failed}
use microceph.Placement.Engine.{Env, Run}
use microceph.Placement.Gateways.{
  Gateway, lacks_flag, any_operational, enable_call, remove_call, remove_gateways, dispatch_all,
  apply_rgw_placement, sort_gateways, gateways,
}
use microceph.Placement.Apply.{
  Cluster, normalize_entry, normalize_members, normalize_placement, validate_placement,
}
use microceph.Placement.Apply.Stored.{accepted, checked}

abbrev flagged : Option RgwPlacement → Bool
flagged none = true
flagged (some r) = elim r.enabled [ none ↦ false | some _ ↦ true ]

normal-flagged : (s : RgwPlacement) → IsNormal s → flagged (some s) ≡ true
normal-flagged s (inl e) = ground arith
normal-flagged s (inr (ssl, on, _, _, _)) = rw on refl

entry-flagged :
    (tls : Tls) (name : String) (mp mp' : MemberPlacement) (o : Option RgwPlacement)
    → mp.rgw ≡ o
    → normalize_entry tls name mp o ≡ ok mp'
    → flagged mp'.rgw ≡ true
unfolding normalize_entry
entry-flagged tls name mp mp' none e h = ground arith
entry-flagged tls name mp mp' (some r) e h = by_result (normalized tls r) refl h
  where
    by_result :
        (res : Result RgwError RgwPlacement)
        → normalized tls r ≡ res
        → normalize_entry tls name mp (some r) ≡ ok mp'
        → flagged mp'.rgw ≡ true
    by_result (ok s) k h = ground (arith, k, normal-flagged s (normalized-IsNormal tls r s k))
    by_result (err x) k h = ground (arith, k)

cons-lacks_flag :
    (m : String) (rest ns : Members) (e : Result PlacementError MemberPlacement)
    (r : Result PlacementError Members)
    → ((mp' : MemberPlacement) → e ≡ ok mp' → flagged mp'.rgw ≡ true)
    → ((rest' : Members) → r ≡ ok rest' → lacks_flag rest' ≡ false)
    → (e >>= λ mp'. r >>= λ rest'. ok ((m, mp') ∷ rest')) ≡ ok ns
    → lacks_flag ns ≡ false
unfolding lacks_flag
cons-lacks_flag m rest ns (ok mp') (ok rest') flags tail h =
    ground (arith, flags mp' refl, tail rest' refl)
cons-lacks_flag m rest ns (ok mp') (err x) flags tail h = cc
cons-lacks_flag m rest ns (err x) r flags tail h = cc

normalize_members-lacks_flag :
    (tls : Tls) (ms ns : Members) → normalize_members tls ms ≡ ok ns → lacks_flag ns ≡ false
unfolding normalize_members lacks_flag
normalize_members-lacks_flag tls [] ns h = ground arith
normalize_members-lacks_flag tls ((m, mp) ∷ rest) ns h =
    cons-lacks_flag m rest ns (normalize_entry tls m mp mp.rgw) (normalize_members tls rest)
      (λ mp' k. entry-flagged tls m mp mp' mp.rgw refl k)
      (λ rest' k. normalize_members-lacks_flag tls rest rest' k) h

accepted-lacks_flag :
    (cluster : Cluster) (policy n : PlacementPolicy) (r : Result PlacementError Members)
    → ((ns : Members) → r ≡ ok ns → lacks_flag ns ≡ false)
    → ((r >>= λ members. ok (record policy { members = members })) >>= λ n.
        checked n (validate_placement cluster n))
      ≡ ok n
    → lacks_flag n.members ≡ false
accepted-lacks_flag cluster policy n (err x) flags h = cc
accepted-lacks_flag cluster policy n (ok ns) flags h =
    let m : PlacementPolicy = record policy { members = ns } in
    checked-lacks_flag m n (validate_placement cluster m) (flags ns refl) h
  where
    checked-lacks_flag :
        (m n : PlacementPolicy) (o : Option PlacementError)
        → lacks_flag m.members ≡ false
        → checked m o ≡ ok n
        → lacks_flag n.members ≡ false
    checked-lacks_flag m n none f h = ground arith
    checked-lacks_flag m n (some e) f h = cc

disables-error :
    (failures : List RgwFailure)
    → (elim failures [ [] ↦ none | f ∷ fs ↦ some (rgw_failed (any_operational (f ∷ fs)) (f ∷ fs)) ])
      ≢ some nil_dereference
disables-error [] h = cc
disables-error (f ∷ fs) h = cc

pass-error :
    (env : Env) (gs : List Gateway) (s : Run) (failures : List RgwFailure)
    → (remove_gateways env gs s failures).1 ≢ some nil_dereference
unfolding remove_gateways
pass-error env gs s (f ∷ fs) h = cc
pass-error env gs s [] h = disables-error (dispatch_all env (map remove_call gs) s).1 h

-- The RGW pass over an accepted policy never dereferences a flag that is not there, whatever the
-- members answer.
pub accepted-no_dereference :
    (cluster : Cluster) (policy n : PlacementPolicy) (env : Env) (s : Run)
    → accepted cluster policy ≡ ok n
    → (apply_rgw_placement env n s).1 ≢ some nil_dereference
unfolding apply_rgw_placement normalize_placement
accepted-no_dereference cluster policy n env s h =
    let flags =
      accepted-lacks_flag cluster policy n (normalize_members cluster.tls policy.members)
        (λ ns k. normalize_members-lacks_flag cluster.tls policy.members ns k) h in
    let enabled = dispatch_all env (map enable_call (sort_gateways (gateways true n.members))) s in
    rw flags (pass-error env (sort_gateways (gateways false n.members)) enabled.0 enabled.1)
