-- ===== src/Placement/Gateways/Calls.antt =====
-- The dispatches of applyRgwPlacement, microceph/ceph/placement.go.
use microceph.Prelude.{List, [], ◌∷◌, map, true, false, inl, inr, Bool-cases}
use microceph.Placement.Policy.{PlacementPolicy}
use microceph.Placement.Errors.{Call, RgwFailure}
use microceph.Placement.Engine.{Env, Run}
use microceph.Placement.Gateways.{
  Gateway, enable_call, remove_call, dispatch_all, remove_gateways, apply_rgw_placement, lacks_flag,
  gateways, sort_gateways,
}

-- A property of the dispatches that an RGW dispatch keeps.
pub record Insensitive (P : List Call → Type 0) : Type 0 where
  pub enabling : (g : Gateway) (cs : List Call) → P cs → P (enable_call g ∷ cs)
  pub removing : (g : Gateway) (cs : List Call) → P cs → P (remove_call g ∷ cs)

module _ (P : List Call → Type 0) where
  pub dispatch_all_keeps :
      (call : Gateway → Call)
      → ((g : Gateway) (cs : List Call) → P cs → P (call g ∷ cs))
      → (env : Env) (gs : List Gateway) (s : Run) → P s.calls
      → P (dispatch_all env (map call gs) s).0.calls
  unfolding dispatch_all
  dispatch_all_keeps call keep env [] s h = h
  dispatch_all_keeps call keep env (g ∷ gs) s h =
      dispatch_all_keeps call keep env gs (record s { calls = call g ∷ s.calls }) (keep g s.calls h)

  remove_gateways_keeps :
      Insensitive P
      → (env : Env) (gs : List Gateway) (s : Run) (failures : List RgwFailure) → P s.calls
      → P (remove_gateways env gs s failures).0.calls
  unfolding remove_gateways
  remove_gateways_keeps i env gs s [] h = dispatch_all_keeps remove_call i.removing env gs s h
  remove_gateways_keeps i env gs s (f ∷ fs) h = h

  pub apply_rgw_placement_keeps :
      Insensitive P
      → (env : Env) (policy : PlacementPolicy) (s : Run) → P s.calls
      → P (apply_rgw_placement env policy s).0.calls
  unfolding apply_rgw_placement
  apply_rgw_placement_keeps i env policy s h =
      let disables = sort_gateways (gateways false policy.members) in
      let r = dispatch_all env (map enable_call (sort_gateways (gateways true policy.members))) s in
      let kept =
        dispatch_all_keeps enable_call i.enabling env (sort_gateways (gateways true policy.members))
          s h in
      elim (Bool-cases (lacks_flag policy.members)) [
        | inl bad ↦ rw bad h
        | inr fine ↦ rw fine (remove_gateways_keeps i env disables r.0 r.1 kept)
      ]
