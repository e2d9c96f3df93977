-- ===== src/Osd/Plan.antt =====
-- planAuxiliaryPartitionsDetailed of microceph/ceph/osd_waldb.go, and what it uses of
-- microceph/ceph/osd.go. A `uint64` is a natural number: the subtractions are guarded by the code's
-- own tests, and the sums are of sizes on one disk and of slots in one partition table.
pub mod Vacant
pub mod Slots
pub mod Order
pub mod Start
pub mod Suffices
pub mod Capacity
pub mod Choose
use Prim.Native.Nat.{◌%◌, ◌^◌}
use microceph.Prelude.{
  ℕ, zero, suc, map, ◌+◌, ◌-◌, String, List, [], ◌∷◌, ◌++◌, Bool, true, false, not, ◌&&◌, ◌||◌,
  Option, none, some, ltb, ◌==◌, nat_eq, if◌then◌else◌, length, Result, ok, err, ◌>>=◌,
}
use microceph.Dsl.Text.{Bytes, bytes_less, bytes_eq}
use microceph.Dsl.Device.{Disk, get_device_path}

-- The fields of LXD's partitions and disks that the planner reads; `path` is GetDevicePath.
pub record Partition : Type 0 where
  pub partition : ℕ
  pub size : ℕ

pub record Carrier : Type 0 where
  pub path : Bytes
  pub size : ℕ
  pub partitions : List Partition

-- plannedCarrierState; `partitions` are those of its disk.
pub record CarrierState : Type 0 where
  pub path : Bytes
  pub partitions : List Partition
  pub partition_no : ℕ
  pub partition_cnt : ℕ
  pub remaining_size : ℕ
  pub reset_before_use : Bool

-- plannedAuxPartition, less its kind and the UUID that is filled in later.
pub record PlannedPartition : Type 0 where
  pub parent_path : Bytes
  pub partition : ℕ
  pub size_bytes : ℕ
  pub reset_before_use : Bool
  pub initialize_gpt : Bool

total_size : List Partition → ℕ
total_size [] = 0
total_size (p ∷ ps) = p.size + total_size ps

-- diskUsedBytes, with the sum of `uint64`s.
unfoldable pub disk_used_bytes : Carrier → ℕ
unfolding total_size
disk_used_bytes disk =
    let used = total_size disk.partitions % 2 ^ 64 in if ltb disk.size used then disk.size else used

-- The inner loop over the partitions of a disk.
unfoldable pub is_occupied : List Partition → ℕ → Bool
is_occupied [] n = false
is_occupied (p ∷ ps) n = p.partition == n || is_occupied ps n

-- The loop from slot `n` to the first vacant one, for at most `rounds` occupied slots.
unfoldable pub vacant_from : ℕ → List Partition → ℕ → ℕ
unfolding is_occupied
vacant_from zero ps n = n
vacant_from (suc rounds) ps n =
    let later = vacant_from rounds ps (suc n) in if is_occupied ps n then later else n

abbrev pub next_vacant : List Partition → ℕ → ℕ
next_vacant ps n = vacant_from (length ps) ps n

-- nextPartitionNumber.
unfoldable pub next_partition_number : Carrier → ℕ
unfolding vacant_from
next_partition_number disk = next_vacant disk.partitions 1

-- The state that a carrier starts with.
unfoldable pub initial_state : (Bytes → Bool) → Carrier → CarrierState
unfolding disk_used_bytes next_partition_number
initial_state reset disk =
    let used = disk_used_bytes disk in
    if reset disk.path
    then record {
      path = disk.path;
      partitions = [];
      partition_no = 1;
      partition_cnt = 0;
      remaining_size = disk.size;
      reset_before_use = true;
    }
    else record {
      path = disk.path;
      partitions = disk.partitions;
      partition_no = next_partition_number disk;
      partition_cnt = length disk.partitions;
      remaining_size = if ltb used disk.size then disk.size - used else 0;
      reset_before_use = false;
    }

-- Whether `s` takes the place of the choice `best`.
unfoldable pub is_better : CarrierState → CarrierState → Bool
is_better s best =
    ltb s.partition_cnt best.partition_cnt
    || (s.partition_cnt == best.partition_cnt && bytes_less s.path best.path)

abbrev pub Choice : Type 0
Choice = Option (ℕ × CarrierState)

unfoldable pub prefer : ℕ → CarrierState → Choice → Choice
unfolding is_better
prefer idx s none = some (idx, s)
prefer idx s (some (i, best)) = if is_better s best then some (idx, s) else some (i, best)

-- The loop over the carriers, from index `idx` on.
unfoldable pub choose : ℕ → List CarrierState → ℕ → Choice → Choice
unfolding prefer
choose size [] idx best = best
choose size (s ∷ ss) idx best =
    choose size ss (suc idx) (if ltb s.remaining_size size then best else prefer idx s best)

unfoldable pub set_at : ℕ → CarrierState → List CarrierState → List CarrierState
set_at i s [] = []
set_at zero s (_ ∷ ss) = s ∷ ss
set_at (suc i) s (t ∷ ss) = t ∷ set_at i s ss

unfoldable pub plan_one : ℕ → CarrierState → PlannedPartition
plan_one size s = record {
  parent_path = s.path;
  partition = s.partition_no;
  size_bytes = size;
  reset_before_use = s.reset_before_use;
  initialize_gpt = s.partition_cnt == 0;
}

-- The chosen carrier behind the planned partition.
unfoldable pub take_slot : ℕ → CarrierState → CarrierState
take_slot size s = record {
  path = s.path;
  partitions = s.partitions;
  partition_no = next_vacant s.partitions (suc s.partition_no);
  partition_cnt = suc s.partition_cnt;
  remaining_size = s.remaining_size - size;
  reset_before_use = false;
}

unfoldable pub then_plan :
    PlannedPartition → Option (List PlannedPartition) → Option (List PlannedPartition)
then_plan p none = none
then_plan p (some plan) = some (p ∷ plan)

-- The round of one OSD, with its choice; `later` are the rounds behind it. `none` is the error of
-- insufficient capacity.
unfoldable pub next_plan :
    ℕ
    → List CarrierState
    → (List CarrierState → Option (List PlannedPartition))
    → Choice
    → Option (List PlannedPartition)
unfolding plan_one take_slot set_at then_plan
next_plan size states later none = none
next_plan size states later (some (i, s)) =
    then_plan (plan_one size s) (later (set_at i (take_slot size s) states))

-- The loop over the OSDs.
unfoldable pub plan_from : List Bytes → ℕ → List CarrierState → Option (List PlannedPartition)
unfolding choose next_plan
plan_from [] size states = some []
plan_from (_ ∷ osds) size states =
    next_plan size states (plan_from osds size) (choose size states 0 none)

planned : Option (List PlannedPartition) → Option (List (Option PlannedPartition))
planned none = none
planned (some plan) = some (map (λ p. some p) plan)

-- planAuxiliaryPartitionsDetailed: a partition for each OSD, or none at all without a carrier.
unfoldable pub plan_auxiliary_partitions :
    List Bytes → List Carrier → (Bytes → Bool) → ℕ → Option (List (Option PlannedPartition))
unfolding plan_from initial_state planned
plan_auxiliary_partitions [] carriers reset size = some []
plan_auxiliary_partitions (o ∷ osds) [] reset size = some (map (λ _. none) (o ∷ osds))
plan_auxiliary_partitions (o ∷ osds) (c ∷ cs) reset size =
    planned (plan_from (o ∷ osds) size (map (initial_state reset) (c ∷ cs)))
