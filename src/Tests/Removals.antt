-- ===== src/Tests/Removals.antt =====
-- Removals of OSDs: the calls of one removal, and a request in a cluster of three zones.
use Prim.Native.String.{◌∷◌ as cons_char}
use Prim.Native.String.append
use microceph.Prelude.{
  ◌≤◌, String, List, [], ◌∷◌, Bool, true, false, ◌≡◌, refl, ap, ◌∙◌, subst, ◌==◌, string_eq, Result,
  ok, err, none, Bool-cases, inl, inr, arith, if◌then◌else◌,
}
use microceph.Prelude.Int.{pos, negsuc}
use microceph.Osd.Removal
use microceph.Osd.Removal.{
  Command, downgrade_needed, purge, in_osd_map, not_down, do_remove_osd, unsafe_to_destroy, kill,
  down, Log, did, refused, reweight, out, suppress_autostart, safe_to_destroy, ok_to_stop,
  clear_storage, clean_aux_devices, remove_config, delete_row, in_tree, list_disks,
  migrate_manifest, have_osd, restore_autostart, failed, call_failed, Fault,
}
use microceph.Osd.Removal.Order.{made, is_purge}
use microceph.Osd.Removal.Safe.{Orderly, do_remove_osd-Orderly}
use microceph.Crush
use microceph.Crush.{
  TreeNode, HostTag, CrushError, rack_bucket, node_named, hosts_of_rack, children_of,
  is_on_rack_rule, get_osd_host_az, location_of, get_az_data, gather, set_key, has_key,
  count_azs_with_osds, count_osds_in_az_rack, osds_of_hosts, count_osds,
}
use microceph.Crush.Request.{DisksDelete, decoded, cmd_disks_delete, bad_request, empty_sync}
use microceph.Crush.Removal.{without, occurrences_in_rack, occurrences_in_hosts, occurrences}
use microceph.Crush.Zones.{zones, disks_delete-keeps_zones}

-- The first purge is refused, since the OSD has come up again.
abbrev purge_answer : Bool → Result Fault Bool
purge_answer true = ok true
purge_answer false = err not_down

abbrev reply : Command → Log → Result Fault Bool
reply downgrade_needed log = ok false
reply in_osd_map log = ok false
reply purge log = purge_answer (made is_purge log)
reply act log = ok true

abbrev ceph : Removal.Env
ceph = record { answer = reply; disks = 4 }

abbrev stubborn : Command → Log → Result Fault Bool
stubborn kill log = err (failed "kill")
stubborn act log = reply act log

-- The process cannot be stopped.
abbrev unstoppable : Removal.Env
unstoppable = record { answer = stubborn; disks = 4 }

removed_osd : do_remove_osd ceph (pos 3) false [] ≡ (
  ok true,
  did delete_row true
      ∷ did remove_config true
      ∷ did clean_aux_devices true
      ∷ did clear_storage true
      ∷ did in_osd_map false
      ∷ did purge true
      ∷ did down true
      ∷ refused purge
      ∷ did safe_to_destroy true
      ∷ did down true
      ∷ did kill true
      ∷ did suppress_autostart true
      ∷ did out true
      ∷ did ok_to_stop true
      ∷ did reweight true
      ∷ did in_tree true
      ∷ did downgrade_needed false
      ∷ did list_disks true
      ∷ did migrate_manifest true
      ∷ did have_osd true
      ∷ [],
)
unfolding do_remove_osd made Removal.◌>>=◌ Removal.◌>>◌
removed_osd = refl

kept_osd : do_remove_osd unstoppable (pos 3) false [] ≡ (
  err (call_failed kill (failed "kill")),
  did restore_autostart true
      ∷ refused kill
      ∷ did suppress_autostart true
      ∷ did out true
      ∷ did ok_to_stop true
      ∷ did reweight true
      ∷ did in_tree true
      ∷ did downgrade_needed false
      ∷ did list_disks true
      ∷ did migrate_manifest true
      ∷ did have_osd true
      ∷ [],
)
unfolding do_remove_osd made Removal.◌>>=◌ Removal.◌>>◌
kept_osd = refl

do_remove_osd-Orderly_example : Orderly false (do_remove_osd ceph (pos 3) false [])
do_remove_osd-Orderly_example = do_remove_osd-Orderly ceph (pos 3) false

-- Zones a, b and c with a host each; the host in a has two OSDs.
abbrev nodes : List TreeNode
nodes =
    record { id = negsuc 1; name = "az.a"; kind = "rack"; children = negsuc 4 ∷ [] }
    ∷ record { id = negsuc 2; name = "az.b"; kind = "rack"; children = negsuc 5 ∷ [] }
    ∷ record { id = negsuc 3; name = "az.c"; kind = "rack"; children = negsuc 6 ∷ [] }
    ∷ record { id = negsuc 4; name = "x"; kind = "host"; children = pos 1 ∷ pos 4 ∷ [] }
    ∷ record { id = negsuc 5; name = "y"; kind = "host"; children = pos 2 ∷ [] }
    ∷ record { id = negsuc 6; name = "z"; kind = "host"; children = pos 3 ∷ [] }
    ∷ []

abbrev tags : List HostTag
tags =
    record { member = "x"; value = "a" }
    ∷ record { member = "y"; value = "b" }
    ∷ record { member = "z"; value = "c" }
    ∷ []

abbrev env : Crush.Env
env = record {
  default_rule = ok "3";
  rule_id = λ name. if name == "microceph_auto_rack" then ok "3" else ok "2";
  disks = ok (record { osd = 1; location = "x" } ∷ record { osd = 2; location = "y" } ∷ []);
  tags = ok tags;
  tree = ok nodes;
  count_exclude = λ osd. ok 3;
}

abbrev request : DisksDelete
request = record {
  bypass_safety = false;
  confirm_downgrade = false;
  prohibit_crush_scaledown = false;
}

-- OSD 1 leaves another in its zone, and OSD 2 is the last of its own.
removes-first :
    cmd_disks_delete env (λ call. none) (decoded (pos 1) request)
    ≡ (empty_sync, (pos 1, false) ∷ [])
unfolding cmd_disks_delete
removes-first = refl

refuses-last : cmd_disks_delete env (λ call. none) (decoded (pos 2) request) ≡ (bad_request, [])
unfolding cmd_disks_delete
refuses-last = refl

abbrev after_prefix : String → String
after_prefix (cons_char a (cons_char b (cons_char c s))) = s
after_prefix s = s

-- A bucket's name, character by character.
prefixed : (rack : String) → rack_bucket rack ≡ cons_char "a" (cons_char "z" (cons_char "." rack))
prefixed rack =
    (λ i. append.cons "a" "z." rack i)
    ∙ ap (cons_char "a") (
        (λ i. append.cons "z" "." rack i)
        ∙ ap (cons_char "z")
            ((λ i. append.cons "." "" rack i) ∙ ap (cons_char ".") (λ i. append.nil rack i)))

placed_in_rack :
    (rack : String) → occurrences_in_rack (pos 1) nodes rack ≤ (if rack == "a" then 1 else 0)
unfolding occurrences_in_rack occurrences_in_hosts occurrences node_named hosts_of_rack children_of
placed_in_rack rack = elim (Bool-cases ("az.a" == rack_bucket rack)) [
  | inl e ↦
      let bucket = (string_eq.beq_iff "az.a" (rack_bucket rack)).0 e in
      let same : "a" ≡ rack = ap after_prefix (bucket ∙ prefixed rack) in
      subst (λ r. occurrences_in_rack (pos 1) nodes r ≤ (if r == "a" then 1 else 0)) same
        (ground arith)
  | inr e ↦ ground arith
]

disks_delete-keeps_zones_example : 3 ≤ count_azs_with_osds (without (pos 1) nodes) (zones tags) ""
unfolding is_on_rack_rule get_osd_host_az children_of get_az_data count_azs_with_osds
    cmd_disks_delete
disks_delete-keeps_zones_example =
    disks_delete-keeps_zones env (λ call. none) (pos 1) request "a" tags nodes refl refl refl refl
      (refl, placed_in_rack) (ground arith) refl
