-- ===== src/Dsl/Device.antt =====
-- A disk and what the language sees of it: microceph/dsl/vars.go, and GetDevicePath of
-- microceph/common/storage.go.
use microceph.Prelude.{
  ℕ, [], Bool, Option, none, some, zero, suc, ◌==◌, nat_eq, if◌then◌else◌, ◌++◌, take, ◌||◌, List,
}
use microceph.Dsl.Text.{Bytes, codes, bytes_eq, trim_space, has_prefix, index_where}

-- The fields of LXD's ResourcesStorageDisk that the code reads.
pub record Disk : Type 0 where
  pub id : Bytes
  pub type : Bytes
  pub model : Bytes
  pub size : ℕ
  pub device_id : Bytes
  pub device_path : Bytes
  pub read_only : Bool
  pub partitions : List ℕ

pub record DeviceContext : Type 0 where
  pub disk : Disk
  pub hostname : Bytes
  pub path : Bytes
  pub dev_node : Bytes

-- common.GetDevicePath.
unfoldable pub get_device_path : Disk → Bytes
get_device_path disk =
    if disk.device_id == []
    then (if disk.device_path == []
        then codes "/dev/" ++ disk.id
        else codes "/dev/disk/by-path/" ++ disk.device_path)
    else codes "/dev/disk/by-id/" ++ disk.device_id

-- getDevNode.
unfoldable pub get_dev_node : Disk → Bytes
unfolding get_device_path
get_dev_node disk =
    let id = trim_space disk.id in
    if id == []
    then get_device_path disk
    else if has_prefix id (codes "/dev/")
    then id
    else codes "/dev/" ++ id

-- NewDeviceContext.
unfoldable pub new_device_context : Disk → Bytes → DeviceContext
unfolding get_device_path get_dev_node
new_device_context disk hostname = record {
  disk = disk;
  hostname = hostname;
  path = get_device_path disk;
  dev_node = get_dev_node disk;
}

-- `if idx := …; idx > 0 { return model[:idx] }`, else what follows.
cut_at : Option ℕ → Bytes → Bytes → Bytes
cut_at none model other = other
cut_at (some zero) model other = other
cut_at (some (suc i)) model other = take (suc i) model

-- extractVendor.
unfoldable pub extract_vendor : Bytes → Bytes
unfolding cut_at
extract_vendor model =
    let trimmed = trim_space model in
    let at_underscore = cut_at (index_where (λ c. c == b'_') trimmed) trimmed trimmed in
    if trimmed == []
    then []
    else cut_at (index_where (λ c. c == b' ' || c == b'\t') trimmed) trimmed at_underscore
