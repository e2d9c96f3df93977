-- ===== src/Osd/Available.antt =====
-- The disks that may become OSDs: FilterAvailableDisks of microceph/common/storage.go.
pub mod Kept
use microceph.Prelude.{
  ℕ, String, List, [], ◌∷◌, Bool, true, false, ◌&&◌, ◌||◌, not, ltb, ◌==◌, Result, ok, err,
  if◌then◌else◌,
}
use microceph.Dsl.Text.{Bytes, bytes_eq}
use microceph.Dsl.Device.{Disk, get_device_path}

-- The fields of a configured disk that the filter reads.
pub record ConfiguredPath : Type 0 where
  pub location : Bytes
  pub path : Bytes

-- IsMounted and IsCephDevice, which read files, or what stands in for them.
pub record DiskFilterConfig : Type 0 where
  pub is_mounted : Bytes → Result String Bool
  pub is_ceph_device : Bytes → Result String Bool

abbrev pub min_osd_size : ℕ
min_osd_size = 2147483648

has_partitions : Disk → Bool
has_partitions disk = elim disk.partitions [ [] ↦ false | p ∷ ps ↦ true ]

-- The loop over the configured disks.
unfoldable pub is_configured : Bytes → Bytes → List ConfiguredPath → Bool
is_configured hostname path [] = false
is_configured hostname path (c ∷ cs) =
    let rest = is_configured hostname path cs in
    if not (c.location == hostname) then rest else if c.path == path then true else rest

-- A check that fails skips the disk as one that succeeds does.
passes : Result String Bool → Bool
passes (err e) = false
passes (ok used) = not used

-- One round: whether it reaches the append.
unfoldable pub is_appended : DiskFilterConfig → Bytes → List ConfiguredPath → Disk → Bool
unfolding has_partitions get_device_path is_configured passes
is_appended cfg hostname configured disk =
    let path = get_device_path disk in
    if disk.read_only
    then false
    else if has_partitions disk
    then false
    else if ltb disk.size min_osd_size
    then false
    else if is_configured hostname path configured
    then false
    else if passes (cfg.is_mounted path)
    then passes (cfg.is_ceph_device path)
    else false

unfoldable pub filter_from : DiskFilterConfig → Bytes → List ConfiguredPath → List Disk → List Disk
unfolding is_appended
filter_from cfg hostname configured [] = []
filter_from cfg hostname configured (disk ∷ disks) =
    let rest = filter_from cfg hostname configured disks in
    if is_appended cfg hostname configured disk then disk ∷ rest else rest

-- FilterAvailableDisks, on what os.Hostname answers.
unfoldable pub filter_available_disks :
    DiskFilterConfig
    → Result String Bytes
    → List Disk
    → List ConfiguredPath
    → Result String (List Disk)
unfolding filter_from
filter_available_disks cfg (err e) disks configured = err e
filter_available_disks cfg (ok hostname) disks configured =
    ok (filter_from cfg hostname configured disks)
