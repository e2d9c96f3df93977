-- ===== src/Placement/Reconcile.antt =====
-- reconcilePlacement as a whole: microceph/ceph/placement.go.
pub mod Safety
pub mod Converges
use microceph.Prelude.{
  List, [], ◌∷◌, Bool, true, false, not, Option, none, some, Result, ok, err, ◌>>◌, if◌then◌else◌,
}
use microceph.Placement.Policy.{PlacementPolicy, Members}
use microceph.Placement.Errors.{
  RemoteError, PlacementError, no_server_certificate, observe_failed, keep_one, retain_refusals,
}
use microceph.Placement.Engine.{
  Env, Run, Step, ServiceRow, initial_run, add_services, assess, remove_services,
}
use microceph.Placement.Gateways.{apply_rgw_placement}

-- The result of the RGW pass joined with the refusals of the control pass.
unfoldable pub conclude : Run → Option PlacementError → Run × Option PlacementError
conclude s (some e) = (s, some (retain_refusals e s.refused))
conclude s none = (s, elim s.refused [ [] ↦ none | r ∷ rs ↦ some (keep_one (r ∷ rs)) ])

unfoldable pub finish : Env → PlacementPolicy → Step
unfolding conclude
finish env policy s = let r = apply_rgw_placement env policy s in conclude r.0 r.1

unfoldable pub reconcile_from :
    Env → PlacementPolicy → List ServiceRow → Run × Option PlacementError
unfolding finish
reconcile_from env policy rows =
    (add_services env policy
        >> (assess env policy >> (remove_services env policy >> finish env policy)))
      (initial_run rows)

idle : Run
idle = initial_run []

with_rows :
    Env → PlacementPolicy → Result RemoteError (List ServiceRow) → Run × Option PlacementError
unfolding reconcile_from idle
with_rows env policy (err e) = (idle, some (observe_failed e))
with_rows env policy (ok rows) = reconcile_from env policy rows

with_members : Env → PlacementPolicy → Members → Run × Option PlacementError
unfolding with_rows
with_members env policy [] = (idle, none)
with_members env policy (_ ∷ _) = with_rows env policy env.services

unfoldable pub reconcile_placement : Env → PlacementPolicy → Run × Option PlacementError
unfolding with_members
reconcile_placement env policy =
    if not env.server_cert
    then (idle, some no_server_certificate)
    else with_members env policy policy.members
