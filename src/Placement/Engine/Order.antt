-- ===== src/Placement/Engine/Order.antt =====
-- The order of additions and removals in reconcilePlacement: microceph/ceph/placement.go.
use microceph.Prelude.{
  String, List, [], ◌∷◌, not, ◌||◌, refl, inl, inr, ◌==◌, nat_eq, Occurs, Bool-cases,
  for_each_keeps, resume_keeps,
}
use microceph.Placement.Policy.{PlacementPolicy}
use microceph.Placement.Errors.{
  ControlService, control_services, Call, add_control, remove_control, enable_rgw, remove_rgw,
  remove_failed, retain_refusals,
}
use microceph.Placement.Table.{get}
use microceph.Placement.Engine.{
  Env, Run, is_keeper, dispatch, mark_removed, remove_member, remove_services, count_retainers,
}

abbrev pub RemovalFree : List Call → Type 0
RemovalFree cs = (svc : ControlService) (m : String) → ¬ (Occurs (remove_control svc m) cs)

-- No removal is older than an addition.
abbrev pub AddsFirst : List Call → Type 0
AddsFirst [] = Unit
AddsFirst (add_control _ _ ∷ cs) = RemovalFree cs × AddsFirst cs
AddsFirst (remove_control _ _ ∷ cs) = AddsFirst cs
AddsFirst (enable_rgw _ _ ∷ cs) = AddsFirst cs
AddsFirst (remove_rgw _ ∷ cs) = AddsFirst cs

pub NothingRemoved-AddsFirst : (cs : List Call) → RemovalFree cs → AddsFirst cs
NothingRemoved-AddsFirst [] h = tt
NothingRemoved-AddsFirst (add_control svc m ∷ cs) h =
    let older : RemovalFree cs = λ svc m q. h svc m (inr q) in
    (older, NothingRemoved-AddsFirst cs older)
NothingRemoved-AddsFirst (remove_control svc m ∷ cs) h = absurd (h svc m (inl refl))
NothingRemoved-AddsFirst (enable_rgw _ _ ∷ cs) h =
    NothingRemoved-AddsFirst cs (λ svc m q. h svc m (inr q))
NothingRemoved-AddsFirst (remove_rgw _ ∷ cs) h =
    NothingRemoved-AddsFirst cs (λ svc m q. h svc m (inr q))

-- A property of the dispatches that one more removal keeps holds through the loop that removes.
module _ (P : List Call → Type 0)
    (keep : (svc : ControlService) (m : String) (cs : List Call)
      → P cs
      → P (remove_control svc m ∷ cs))
    (env : Env) (policy : PlacementPolicy) where
  abbrev OfRun : Run → Type 0
  OfRun s = P s.calls

  remove_member_keeps :
      (svc : ControlService) (m : String) (s : Run)
      → OfRun s
      → OfRun (remove_member env policy svc m s).0
  unfolding remove_member dispatch mark_removed
  remove_member_keeps svc m s h =
      elim (Bool-cases (is_keeper policy m || not (get s.observed svc m))) [
        | inl skipped ↦ rw skipped h
        | inr target ↦
            rw target
              (elim (Bool-cases (count_retainers policy s.viable svc m (s.observed svc) == 0)) [
                | inl last ↦ rw last h
                | inr spare ↦
                    let d =
                      dispatch env (remove_control svc m)
                        (λ e. retain_refusals (remove_failed svc m e) s.refused) s in
                    rw spare (
                      resume_keeps OfRun (mark_removed svc m) (λ s' h'. h') d.0 d.1
                        (keep svc m s.calls h))
              ])
      ]

  pub remove_services_keeps : (s : Run) → OfRun s → OfRun (remove_services env policy s).0
  unfolding remove_services
  remove_services_keeps s h =
      for_each_keeps OfRun _
        (λ svc. for_each_keeps OfRun _ (remove_member_keeps svc) (env.remove_order svc))
        control_services s h

pub remove_services-AddsFirst :
    (env : Env) (policy : PlacementPolicy) (s : Run)
    → AddsFirst s.calls
    → AddsFirst (remove_services env policy s).0.calls
remove_services-AddsFirst env policy s h =
    remove_services_keeps AddsFirst (λ svc m cs k. k) env policy s h
