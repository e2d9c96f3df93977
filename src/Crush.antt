-- ===== src/Crush.antt =====
-- The failure domain of the cluster: microceph/ceph/crush.go, and the functions of
-- microceph/ceph/osd.go that choose the CRUSH rule by the availability zones and the hosts.
pub mod Request
pub mod Removal
pub mod Zones
use Prim.Native.String.{◌++◌ as append}
use microceph.Prelude.{
  ℕ, ◌+◌, String, List, [], ◌∷◌, Bool, true, false, Option, none, some, ◌==◌, string_eq, ltb, leb,
  Result, ok, err, ◌>>=◌, if◌then◌else◌,
}
use microceph.Prelude.Int.{ℤ, pos, negsuc, eqb_int}
use microceph.Operations.{ConfiguredDisk}

-- A node of `ceph osd tree`; its `type` is named `kind` here.
pub record TreeNode : Type 0 where
  pub id : ℤ
  pub name : String
  pub kind : String
  pub children : List ℤ

-- A row of host_tags with the key availability-zone.
pub record HostTag : Type 0 where
  pub member : String
  pub value : String

-- The map uniqueAZs is the list of its keys.
pub record AzData : Type 0 where
  pub host_az : String
  pub unique_azs : List String

unfoldable pub has_key : String → List String → Bool
has_key k [] = false
has_key k (j ∷ ks) = if j == k then true else has_key k ks

unfoldable pub set_key : String → List String → List String
unfolding has_key
set_key k ks = if has_key k ks then ks else k ∷ ks

unfoldable pub gather : String → List HostTag → AzData → AzData
unfolding set_key
gather hostname [] d = d
gather hostname (tag ∷ tags) d = gather hostname tags (record {
  host_az = if tag.member == hostname then tag.value else d.host_az;
  unique_azs = set_key tag.value d.unique_azs;
})

-- getAZData, from the rows that the transaction reads.
unfoldable pub get_az_data : List HostTag → String → AzData
unfolding gather
get_az_data tags hostname = gather hostname tags (record { host_az = ""; unique_azs = [] })

-- The query #(name=="...") of package gjson: the first node with the name.
unfoldable pub node_named : String → List TreeNode → Option TreeNode
node_named name [] = none
node_named name (n ∷ nodes) = if n.name == name then some n else node_named name nodes

-- The query #(id==...).children: those of the first node with the id.
unfoldable pub children_of : ℤ → List TreeNode → List ℤ
children_of id [] = []
children_of id (n ∷ nodes) = if eqb_int n.id id then n.children else children_of id nodes

unfoldable pub count_osds : List ℤ → ℕ
count_osds [] = 0
count_osds (pos n ∷ ids) = 1 + count_osds ids
count_osds (negsuc n ∷ ids) = count_osds ids

unfoldable pub osds_of_hosts : List ℤ → List TreeNode → ℕ
unfolding count_osds children_of
osds_of_hosts [] nodes = 0
osds_of_hosts (host ∷ hosts) nodes = count_osds (children_of host nodes) + osds_of_hosts hosts nodes

unfoldable pub hosts_of_rack : Option TreeNode → List ℤ
hosts_of_rack none = []
hosts_of_rack (some rack) = if rack.kind == "rack" then rack.children else []

abbrev pub rack_bucket : String → String
rack_bucket az = append "az." az

-- countOSDsInAZRack.
unfoldable pub count_osds_in_az_rack : List TreeNode → String → ℕ
unfolding osds_of_hosts hosts_of_rack node_named
count_osds_in_az_rack nodes az =
    osds_of_hosts (hosts_of_rack (node_named (rack_bucket az) nodes)) nodes

-- countAZsWithOSDs.
unfoldable pub count_azs_with_osds : List TreeNode → List String → String → ℕ
unfolding count_osds_in_az_rack
count_azs_with_osds nodes [] current = 0
count_azs_with_osds nodes (az ∷ azs) current =
    (if az == current then 1 else if ltb 0 (count_osds_in_az_rack nodes az) then 1 else 0)
    + count_azs_with_osds nodes azs current

pub data CrushError : Type 0 where
  command_failed database_failed : String → CrushError
  not_found : CrushError

-- What Ceph and the database answer: the configured default rule, the id of a rule, the disks, the
-- tags of the hosts, the tree of the OSDs, and MemberCounter.CountExclude.
pub record Env : Type 0 where
  pub default_rule : Result CrushError String
  pub rule_id : String → Result CrushError String
  pub disks : Result CrushError (List ConfiguredDisk)
  pub tags : Result CrushError (List HostTag)
  pub tree : Result CrushError (List TreeNode)
  pub count_exclude : ℤ → Result CrushError ℕ

-- IsOnRackRule.
unfoldable pub is_on_rack_rule : Env → Result CrushError Bool
is_on_rack_rule env = do
  current ← env.default_rule
  rack ← env.rule_id "microceph_auto_rack"
  ok (current == rack)

unfoldable pub location_of : ℤ → List ConfiguredDisk → String
location_of osd [] = ""
location_of osd (d ∷ ds) = if eqb_int (pos d.osd) osd then d.location else location_of osd ds

az_of_host : Env → String → Result CrushError String
unfolding get_az_data
az_of_host env hostname =
    if hostname == ""
    then err not_found
    else (env.tags >>= λ tags. ok (get_az_data tags hostname).host_az)

-- getOSDHostAZ.
unfoldable pub get_osd_host_az : Env → ℤ → Result CrushError String
unfolding location_of az_of_host
get_osd_host_az env osd = env.disks >>= λ disks. az_of_host env (location_of osd disks)

unfoldable pub degrades : List TreeNode → List String → String → Bool
unfolding count_azs_with_osds count_osds_in_az_rack
degrades nodes azs osd_az =
    if ltb 3 (count_azs_with_osds nodes azs "")
    then false
    else leb (count_osds_in_az_rack nodes osd_az) 1

blocked_in : Env → String → Result CrushError Bool
unfolding degrades get_az_data
blocked_in env osd_az =
    if osd_az == ""
    then ok false
    else (env.tags >>= λ tags.
        env.tree >>= λ nodes. ok (degrades nodes (get_az_data tags "").unique_azs osd_az))

rack_checked : Env → ℤ → Bool → Result CrushError Bool
unfolding get_osd_host_az blocked_in
rack_checked env osd on_rack =
    if on_rack then get_osd_host_az env osd >>= blocked_in env else ok false

-- IsRackDegradeBlocked.
unfoldable pub is_rack_degrade_blocked : Env → ℤ → Result CrushError Bool
unfolding is_on_rack_rule rack_checked
is_rack_degrade_blocked env osd = is_on_rack_rule env >>= rack_checked env osd

-- IsDowngradeNeeded.
unfoldable pub is_downgrade_needed : Env → ℤ → Result CrushError Bool
is_downgrade_needed env osd = do
  current ← env.default_rule
  host ← env.rule_id "microceph_auto_host"
  (if current == host then (env.count_exclude osd >>= λ nodes. ok (ltb nodes 3)) else ok false)
