-- ===== src/Crush/Removal.antt =====
-- The removal of an OSD under the failure domain rack: IsRackDegradeBlocked of
-- microceph/ceph/osd.go against the tree that the removal leaves.
use microceph.Prelude.{
  ℕ, ◌+◌, ◌≤◌, String, List, [], ◌∷◌, true, false, ◌≡◌, refl, ap, ◌∙◌, ◌==◌, string_eq, nat_eq, ltb,
  leb, if◌then◌else◌, arith, Bool-cases, inl, inr,
}
use microceph.Prelude.Int.{ℤ, pos, negsuc, eqb_int, eqb_int-eq}
use microceph.Crush.{
  TreeNode, HostTag, AzData, has_key, set_key, gather, node_named, children_of, count_osds,
  osds_of_hosts, hosts_of_rack, rack_bucket, count_osds_in_az_rack, count_azs_with_osds, degrades,
}

unfoldable pub drop_id : ℤ → List ℤ → List ℤ
drop_id osd [] = []
drop_id osd (id ∷ ids) = let rest = drop_id osd ids in if eqb_int id osd then rest else id ∷ rest

abbrev pub strip : ℤ → TreeNode → TreeNode
strip osd n = record n { children = drop_id osd n.children }

-- The tree once the OSD is gone, as far as the counts read it, which meet an OSD as a child.
unfoldable pub without : ℤ → List TreeNode → List TreeNode
unfolding drop_id
without osd [] = []
without osd (n ∷ nodes) = strip osd n ∷ without osd nodes

unfoldable pub occurrences : ℤ → List ℤ → ℕ
occurrences osd [] = 0
occurrences osd (id ∷ ids) = (if eqb_int id osd then 1 else 0) + occurrences osd ids

unfoldable pub occurrences_in_hosts : ℤ → List ℤ → List TreeNode → ℕ
unfolding occurrences children_of
occurrences_in_hosts osd [] nodes = 0
occurrences_in_hosts osd (h ∷ hs) nodes =
    occurrences osd (children_of h nodes) + occurrences_in_hosts osd hs nodes

-- How often the OSD stands below the rack of a zone.
unfoldable pub occurrences_in_rack : ℤ → List TreeNode → String → ℕ
unfolding occurrences_in_hosts hosts_of_rack node_named
occurrences_in_rack osd nodes az =
    occurrences_in_hosts osd (hosts_of_rack (node_named (rack_bucket az) nodes)) nodes

children_of-without :
    (id osd : ℤ) (nodes : List TreeNode)
    → children_of id (without osd nodes) ≡ drop_id osd (children_of id nodes)
unfolding children_of without drop_id
children_of-without id osd [] = refl
children_of-without id osd (n ∷ nodes) = ground (arith, children_of-without id osd nodes)

count_osds-drop_id :
    (osd : ℤ) (ids : List ℤ) → count_osds ids ≤ count_osds (drop_id osd ids) + occurrences osd ids
unfolding count_osds drop_id occurrences
count_osds-drop_id osd [] = ground arith
count_osds-drop_id osd (pos n ∷ ids) = ground (arith, count_osds-drop_id osd ids)
count_osds-drop_id osd (negsuc n ∷ ids) = ground (arith, count_osds-drop_id osd ids)

osds_of_hosts-without :
    (osd : ℤ) (hosts : List ℤ) (nodes : List TreeNode)
    → children_of osd nodes ≡ []
    → osds_of_hosts hosts nodes
      ≤ osds_of_hosts (drop_id osd hosts) (without osd nodes) + occurrences_in_hosts osd hosts nodes
unfolding osds_of_hosts drop_id occurrences_in_hosts
osds_of_hosts-without osd [] nodes leaf = ground arith
osds_of_hosts-without osd (h ∷ hosts) nodes leaf =
    let later = osds_of_hosts-without osd hosts nodes leaf in
    elim (Bool-cases (eqb_int h osd)) [
      | inl e ↦
          let none_below : children_of h nodes ≡ [] =
            ap (λ x. children_of x nodes) (eqb_int-eq h osd e) ∙ leaf in
          rw (e, none_below) (unfold count_osds occurrences in ground arith)
      | inr e ↦
          let below = count_osds-drop_id osd (children_of h nodes) in
          rw (e, children_of-without h osd nodes) (ground arith)
    ]

hosts_of_rack-without :
    (osd : ℤ) (name : String) (nodes : List TreeNode)
    → hosts_of_rack (node_named name (without osd nodes))
      ≡ drop_id osd (hosts_of_rack (node_named name nodes))
unfolding hosts_of_rack node_named without drop_id
hosts_of_rack-without osd name [] = refl
hosts_of_rack-without osd name (n ∷ nodes) = ground (arith, hosts_of_rack-without osd name nodes)

pub count_osds_in_az_rack-without :
    (osd : ℤ) (nodes : List TreeNode) (az : String)
    → children_of osd nodes ≡ []
    → count_osds_in_az_rack nodes az
      ≤ count_osds_in_az_rack (without osd nodes) az + occurrences_in_rack osd nodes az
unfolding count_osds_in_az_rack occurrences_in_rack
count_osds_in_az_rack-without osd nodes az leaf =
    rw (hosts_of_rack-without osd (rack_bucket az) nodes)
      (osds_of_hosts-without osd (hosts_of_rack (node_named (rack_bucket az) nodes)) nodes leaf)

unfoldable pub count_key : String → List String → ℕ
count_key k [] = 0
count_key k (j ∷ ks) = (if j == k then 1 else 0) + count_key k ks

count_key-has_key : (k : String) (ks : List String) → has_key k ks ≡ false → count_key k ks ≡ 0
unfolding count_key has_key
count_key-has_key k [] h = refl
count_key-has_key k (j ∷ ks) h = ground (arith, count_key-has_key k ks)

count_key-set_key :
    (k j : String) (ks : List String) → count_key k ks ≤ 1 → count_key k (set_key j ks) ≤ 1
unfolding set_key count_key
count_key-set_key k j ks h = ground (arith, count_key-has_key j ks, string_eq.beq_iff j k)

pub count_key-gather :
    (k hostname : String) (tags : List HostTag) (d : AzData)
    → count_key k d.unique_azs ≤ 1
    → count_key k (gather hostname tags d).unique_azs ≤ 1
unfolding gather
count_key-gather k hostname [] d h = h
count_key-gather k hostname (tag ∷ tags) d h =
    count_key-gather k hostname tags _ (count_key-set_key k tag.value d.unique_azs h)

count_azs-monotone :
    (before after : List TreeNode) (azs : List String) (current : String)
    → ((az : String)
        → (az == current) ≡ false
        → ltb 0 (count_osds_in_az_rack before az) ≡ true
        → ltb 0 (count_osds_in_az_rack after az) ≡ true)
    → count_azs_with_osds before azs current ≤ count_azs_with_osds after azs current
unfolding count_azs_with_osds
count_azs-monotone before after [] current keeps = ground arith
count_azs-monotone before after (az ∷ azs) current keeps =
    let k = keeps az in
    let later = count_azs-monotone before after azs current keeps in ground arith

count_azs-but_one :
    (before after : List TreeNode) (azs : List String) (current lost : String)
    → ((az : String)
        → (az == current) ≡ false
        → (az == lost) ≡ false
        → ltb 0 (count_osds_in_az_rack before az) ≡ true
        → ltb 0 (count_osds_in_az_rack after az) ≡ true)
    → count_azs_with_osds before azs current
      ≤ count_azs_with_osds after azs current + count_key lost azs
unfolding count_azs_with_osds count_key
count_azs-but_one before after [] current lost keeps = ground arith
count_azs-but_one before after (az ∷ azs) current lost keeps =
    let k = keeps az in
    let later = count_azs-but_one before after azs current lost keeps in ground arith

-- What the tree says of an OSD whose host lies in a zone: it has no children, and it stands at most
-- once below the rack of the zone and below no other rack of a zone.
abbrev pub StandsIn : ℤ → List TreeNode → String → Type 0
StandsIn osd nodes az =
    (children_of osd nodes ≡ [])
    × ((rack : String) → occurrences_in_rack osd nodes rack ≤ (if rack == az then 1 else 0))

module _ (osd : ℤ) (nodes : List TreeNode) (az : String) (placed : StandsIn osd nodes az) where
  left_elsewhere :
      (rack : String)
      → (rack == az) ≡ false
      → ltb 0 (count_osds_in_az_rack nodes rack) ≡ true
      → ltb 0 (count_osds_in_az_rack (without osd nodes) rack) ≡ true
  left_elsewhere rack h active =
      let fewer = count_osds_in_az_rack-without osd nodes rack placed.0 in
      let at_most = placed.1 rack in ground arith

  left_in_zone :
      (rack : String)
      → leb (count_osds_in_az_rack nodes az) 1 ≡ false
      → ltb 0 (count_osds_in_az_rack nodes rack) ≡ true
      → ltb 0 (count_osds_in_az_rack (without osd nodes) rack) ≡ true
  left_in_zone rack several active =
      let fewer = count_osds_in_az_rack-without osd nodes rack placed.0 in
      let at_most = placed.1 rack in ground (arith, string_eq.beq_iff rack az)

  pub degrades-keeps :
      (azs : List String)
      → count_key az azs ≤ 1
      → degrades nodes azs az ≡ false
      → 3 ≤ count_azs_with_osds nodes azs ""
      → 3 ≤ count_azs_with_osds (without osd nodes) azs ""
  unfolding degrades
  degrades-keeps azs unique h enough =
      elim (Bool-cases (ltb 3 (count_azs_with_osds nodes azs ""))) [
        | inl e ↦
            let but_one =
              count_azs-but_one nodes (without osd nodes) azs "" az
                (λ rack current elsewhere active. left_elsewhere rack elsewhere active) in
            ground arith
        | inr e ↦
            let several : leb (count_osds_in_az_rack nodes az) 1 ≡ false = ground arith in
            let all_left =
              count_azs-monotone nodes (without osd nodes) azs ""
                (λ rack current active. left_in_zone rack several active) in
            ground arith
      ]

  pub no_zone-keeps :
      (azs : List String)
      → az ≡ ""
      → count_azs_with_osds nodes azs "" ≤ count_azs_with_osds (without osd nodes) azs ""
  no_zone-keeps azs h =
      count_azs-monotone nodes (without osd nodes) azs ""
        (λ rack current active. left_elsewhere rack (ap (λ x. rack == x) h ∙ current) active)
