-- ===== src/Crush/Zones.antt =====
-- cmdDisksDelete of microceph/api/disks.go keeps the availability zones that the failure domain
-- rack needs.
use microceph.Prelude.{
  ◌≤◌, String, List, [], ◌∷◌, true, false, Option, ◌≡◌, ◌==◌, string_eq, ok, arith, Bool-cases, inl,
  inr,
}
use microceph.Prelude.Int.{ℤ}
use microceph.Crush.{
  TreeNode, HostTag, CrushError, Env, get_az_data, count_azs_with_osds, is_on_rack_rule,
  get_osd_host_az, degrades, blocked_in, rack_checked, is_rack_degrade_blocked,
}
use microceph.Crush.Request.{
  DisksDelete, decoded, Removal, removed, after_racks, rack_guarded, cmd_disks_delete,
}
use microceph.Crush.Removal.{
  without, count_key, count_key-gather, StandsIn, degrades-keeps, no_zone-keeps,
}

-- The zones of host_tags.
abbrev pub zones : List HostTag → List String
zones tags = (get_az_data tags "").unique_azs

blocked_in-keeps :
    (env : Env) (osd : ℤ) (az : String) (tags : List HostTag) (nodes : List TreeNode)
    → env.tags ≡ ok tags
    → env.tree ≡ ok nodes
    → blocked_in env az ≡ ok false
    → StandsIn osd nodes az
    → 3 ≤ count_azs_with_osds nodes (zones tags) ""
    → 3 ≤ count_azs_with_osds (without osd nodes) (zones tags) ""
unfolding blocked_in
blocked_in-keeps env osd az tags nodes read seen h placed enough = elim (Bool-cases (az == "")) [
  | inl e ↦
      let kept = no_zone-keeps osd nodes az placed (zones tags) ((string_eq.beq_iff az "").0 e) in
      ground arith
  | inr e ↦
      let safe : degrades nodes (zones tags) az ≡ false = ground arith in
      degrades-keeps osd nodes az placed (zones tags)
        (count_key-gather az "" tags _ (unfold count_key in ground arith)) safe enough
]

rack_guarded-asks :
    (env : Env) (remove_osd : Removal → Option CrushError) (osd : ℤ) (req : DisksDelete)
    → (rack_guarded env remove_osd osd req).1 ≡ (osd, false) ∷ []
    → is_rack_degrade_blocked env osd ≡ ok false
unfolding rack_guarded removed after_racks
rack_guarded-asks env remove_osd osd req h = ground arith

-- Where the cluster is on the rack rule, the host of the OSD is in zone `az` ("" for none), and the
-- tree shows the OSD as StandsIn says and OSDs in three zones: if the handler calls RemoveOSD without
-- a bypass of the checks, then there are OSDs in three zones also in the tree without this OSD.
pub disks_delete-keeps_zones :
    (env : Env) (remove_osd : Removal → Option CrushError) (osd : ℤ) (req : DisksDelete)
    (az : String) (tags : List HostTag) (nodes : List TreeNode)
    → is_on_rack_rule env ≡ ok true
    → env.tags ≡ ok tags
    → env.tree ≡ ok nodes
    → get_osd_host_az env osd ≡ ok az
    → StandsIn osd nodes az
    → 3 ≤ count_azs_with_osds nodes (zones tags) ""
    → (cmd_disks_delete env remove_osd (decoded osd req)).1 ≡ (osd, false) ∷ []
    → 3 ≤ count_azs_with_osds (without osd nodes) (zones tags) ""
unfolding cmd_disks_delete is_rack_degrade_blocked rack_checked
disks_delete-keeps_zones env remove_osd osd req az tags nodes rack read seen host placed enough h =
    blocked_in-keeps env osd az tags nodes read seen (ground arith) placed enough
