-- ===== src/Placement/Gateways.antt =====
-- applyRgwPlacement of microceph/ceph/placement.go: the RGW pass of a reconcile.
pub mod Calls
use Prim.Native.Nat.{Ordering}
use Prim.Native.String.{compare}
use microceph.Prelude.{
  ℕ, String, List, [], ◌∷◌, ◌++◌, map, Bool, true, false, not, ◌||◌, Option, none, some, ◌==◌,
  nat_eq, if◌then◌else◌, Action,
}
use microceph.Placement.Policy.{RgwPlacement, MemberPlacement, PlacementPolicy, Members}
use microceph.Placement.Errors.{
  RemoteError, Call, enable_rgw, remove_rgw, RgwFailure, failed, deferred, PlacementError,
  nil_dereference, rgw_failed,
}
use microceph.Placement.Engine.{Env, Run, Step}

abbrev pub Gateway : Type 0
Gateway = String × RgwPlacement

-- `*mp.Rgw.Enabled` panics on an entry with no flag.
unfoldable pub lacks_flag : Members → Bool
lacks_flag [] = false
lacks_flag ((_, mp) ∷ rest) =
    elim mp.rgw [ none ↦ false | some r ↦ elim r.enabled [ none ↦ true | some _ ↦ false ] ]
    || lacks_flag rest

is_enabled : RgwPlacement → Bool
is_enabled r = elim r.enabled [ some true ↦ true | _ ↦ false ]

-- The entries to enable, or those to disable.
unfoldable pub gateways : Bool → Members → List Gateway
unfolding is_enabled
gateways enabling [] = []
gateways enabling ((name, mp) ∷ rest) =
    let more = gateways enabling rest in
    elim mp.rgw [
      | none ↦ more
      | some r ↦
          if (if enabling then is_enabled r else not (is_enabled r)) then (name, r) ∷ more else more
    ]

-- sort.Strings, on the names.
insert_sorted : Gateway → List Gateway → List Gateway
insert_sorted g [] = g ∷ []
insert_sorted (n, r) ((m, q) ∷ rest) =
    let later = insert_sorted (n, r) rest in
    elim (compare m n) [ Ordering.gt ↦ (n, r) ∷ (m, q) ∷ rest | _ ↦ (m, q) ∷ later ]

unfoldable pub sort_gateways : List Gateway → List Gateway
unfolding insert_sorted
sort_gateways [] = []
sort_gateways (g ∷ gs) = insert_sorted g (sort_gateways gs)

abbrev pub enable_call : Gateway → Call
enable_call (name, r) = enable_rgw name r

abbrev pub remove_call : Gateway → Call
remove_call (name, _) = remove_rgw name

-- A loop that dispatches every call and gathers the failures.
unfoldable pub dispatch_all : Env → List Call → Run → Run × List RgwFailure
dispatch_all env [] s = (s, [])
dispatch_all env (call ∷ calls) s =
    let (last, failures) = dispatch_all env calls (record s { calls = call ∷ s.calls }) in
    (last, elim (env.respond s.calls call) [ none ↦ failures | some e ↦ failed call e ∷ failures ])

-- rgwDispatchFailure: only a forwarded HTTP 400 is the client's.
unfoldable pub any_operational : List RgwFailure → Bool
any_operational [] = false
any_operational (failed _ e ∷ rest) = not (e.status == 400) || any_operational rest
any_operational (deferred _ ∷ rest) = any_operational rest

defer_removals : List Gateway → List RgwFailure
defer_removals [] = []
defer_removals (g ∷ gs) = deferred (map (λ (p : Gateway). p.0) (g ∷ gs)) ∷ []

-- What follows the enables: their failures keep every removal target running.
unfoldable pub remove_gateways :
    Env → List Gateway → Run → List RgwFailure → Run × Option PlacementError
unfolding any_operational defer_removals
remove_gateways env disables s (f ∷ fs) =
    (s, some (rgw_failed (any_operational (f ∷ fs)) ((f ∷ fs) ++ defer_removals disables)))
remove_gateways env disables s [] =
    let (last, failures) = dispatch_all env (map remove_call disables) s in
    (
      last,
      elim failures [ [] ↦ none | f ∷ fs ↦ some (rgw_failed (any_operational (f ∷ fs)) (f ∷ fs)) ],
    )

unfoldable pub apply_rgw_placement : Env → PlacementPolicy → Step
unfolding lacks_flag gateways sort_gateways dispatch_all remove_gateways
apply_rgw_placement env policy s =
    let enables = sort_gateways (gateways true policy.members) in
    let disables = sort_gateways (gateways false policy.members) in
    let (enabled, failures) = dispatch_all env (map enable_call enables) s in
    if lacks_flag policy.members
    then (s, some nil_dereference)
    else remove_gateways env disables enabled failures
