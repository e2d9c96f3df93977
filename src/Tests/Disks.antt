-- ===== src/Tests/Disks.antt =====
-- The planning of partitions on two disks, one with a gap between its partitions and one to reset,
-- and the filter of the disks that may become OSDs.
use microceph.Dsl.Device.{Disk}
use microceph.Osd.Available.{DiskFilterConfig, filter_available_disks}
use microceph.Osd.Available.Kept.{Among, Fit, filter_available_disks-Among}
use microceph.Prelude.{
  arith, ◌≢◌, ℕ, List, [], ◌∷◌, map, Bool, true, false, Option, none, some, ◌≡◌, refl, ◌==◌, String,
  ok, ◌↔◌,
}
use microceph.Dsl.Text.{Bytes, codes, bytes_eq, same_bytes, bytes_less}
use microceph.Osd.Plan.{
  CarrierState, Partition, Carrier, PlannedPartition, disk_used_bytes, is_occupied, vacant_from,
  next_partition_number, initial_state, is_better, choose, set_at, plan_one, take_slot, then_plan,
  next_plan, plan_from, plan_auxiliary_partitions,
}
use microceph.Osd.Plan.Slots.{Distinct}
use microceph.Osd.Plan.Choose.{nth}
use microceph.Osd.Plan.Suffices.{plan_auxiliary_partitions-some}
use microceph.Osd.Plan.Start.{starts, Fulfils, plan_auxiliary_partitions-Fulfils}

abbrev slot : ℕ → ℕ → Partition
slot partition size = record { partition = partition; size = size }

abbrev gapped : Carrier
gapped = record { path = codes "/dev/sda"; size = 100; partitions = slot 1 10 ∷ slot 3 10 ∷ [] }

abbrev old : Carrier
old = record { path = codes "/dev/sdb"; size = 50; partitions = slot 1 50 ∷ [] }

abbrev resets : Bytes → Bool
resets path = path == codes "/dev/sdb"

abbrev osds : List Bytes
osds = codes "/dev/sdc" ∷ codes "/dev/sdd" ∷ codes "/dev/sde" ∷ codes "/dev/sdf" ∷ []

abbrev place : Bytes → ℕ → Bool → Bool → PlannedPartition
place path partition reset initialize = record {
  parent_path = path;
  partition = partition;
  size_bytes = 20;
  reset_before_use = reset;
  initialize_gpt = initialize;
}

-- The reset disk first, then both in turn; the gap is filled before the slots behind it.
abbrev places : List (Option PlannedPartition)
places =
    some (place (codes "/dev/sdb") 1 true true)
    ∷ some (place (codes "/dev/sdb") 2 false false)
    ∷ some (place (codes "/dev/sda") 2 false false)
    ∷ some (place (codes "/dev/sda") 4 false false)
    ∷ []

plan_of_osds : plan_auxiliary_partitions osds (gapped ∷ old ∷ []) resets 20 ≡ some places
unfolding plan_auxiliary_partitions plan_from next_plan then_plan take_slot plan_one set_at choose
    is_better bytes_less initial_state next_partition_number vacant_from is_occupied disk_used_bytes
    same_bytes
plan_of_osds = refl

too_many : plan_auxiliary_partitions osds (old ∷ []) resets 20 ≡ none
unfolding plan_auxiliary_partitions plan_from next_plan then_plan take_slot plan_one set_at choose
    is_better bytes_less initial_state next_partition_number vacant_from is_occupied disk_used_bytes
    same_bytes
too_many = refl

paths_differ : Distinct (starts resets (gapped ∷ old ∷ []))
unfolding initial_state same_bytes
paths_differ = (refl, (refl, tt))

plan_auxiliary_partitions-Fulfils_example :
    (plan : List PlannedPartition) × (places ≡ map (λ q. some q) plan)
    × Fulfils osds (gapped ∷ old ∷ []) resets 20 plan
plan_auxiliary_partitions-Fulfils_example =
    plan_auxiliary_partitions-Fulfils (codes "/dev/sdc")
      (codes "/dev/sdd" ∷ codes "/dev/sde" ∷ codes "/dev/sdf" ∷ []) gapped (old ∷ []) resets 20
      places paths_differ plan_of_osds

-- The disk to reset has room for two.
abbrev empty_start : CarrierState
empty_start = record {
  path = codes "/dev/sdb";
  partitions = [];
  partition_no = 1;
  partition_cnt = 0;
  remaining_size = 50;
  reset_before_use = true;
}

second_start : nth 1 (starts resets (gapped ∷ old ∷ [])) ≡ some empty_start
unfolding initial_state same_bytes
second_start = refl

plan_auxiliary_partitions-some_example :
    plan_auxiliary_partitions
      (codes "/dev/sdc" ∷ codes "/dev/sdd" ∷ [])
      (gapped ∷ old ∷ [])
      resets
      20
    ≢ none
plan_auxiliary_partitions-some_example =
    plan_auxiliary_partitions-some (codes "/dev/sdc" ∷ codes "/dev/sdd" ∷ []) (gapped ∷ old ∷ [])
      resets 20 1 empty_start second_start (omega arith)

-- A disk of 4 GB, one that is mounted, and one that is too small.
abbrev sized : String → ℕ → Disk
sized id size = record {
  id = codes id;
  type = codes "sata";
  model = [];
  size = size;
  device_id = [];
  device_path = [];
  read_only = false;
  partitions = [];
}

abbrev big : Disk
big = sized "sda" 4294967296

abbrev found_disks : List Disk
found_disks = big ∷ sized "sdb" 4294967296 ∷ sized "sdc" 1000 ∷ []

abbrev filter_config : DiskFilterConfig
filter_config = record {
  is_mounted = λ path. ok (path == codes "/dev/sdb");
  is_ceph_device = λ path. ok false;
}

filtered : filter_available_disks filter_config (ok (codes "host")) found_disks [] ≡ ok (big ∷ [])
unfolding filter_available_disks same_bytes
filtered = refl

filter_available_disks-Among_example :
    Among big (big ∷ []) ↔ (Among big found_disks × Fit filter_config (codes "host") [] big)
filter_available_disks-Among_example =
    filter_available_disks-Among filter_config (codes "host") [] found_disks (big ∷ []) big filtered
