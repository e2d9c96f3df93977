-- ===== src/Osd/Plan/Start.antt =====
-- The states that the carriers start with, and the plan from them: planAuxiliaryPartitionsDetailed
-- of microceph/ceph/osd_waldb.go.
use microceph.Prelude.{
  ℕ, suc, ◌+◌, ◌-◌, ◌*◌, ◌≤◌, List, [], ◌∷◌, map, Bool, Option, none, some, ◌≡◌, refl, sym, ap, ◌∙◌,
  inl, inr, ◌==◌, if◌then◌else◌, Bool-cases, All, length, arith,
}
use microceph.Dsl.Text.{Bytes, bytes_eq}
use microceph.Osd.Plan.{
  Carrier, CarrierState, PlannedPartition, Choice, is_occupied, disk_used_bytes,
  next_partition_number, initial_state, choose, then_plan, next_plan, plan_one, plan_from, planned,
  plan_auxiliary_partitions,
}
use microceph.Osd.Plan.Capacity.{room_at, count_at, plan_from-room_at}
use microceph.Osd.Plan.Vacant.{next_vacant-vacant}
use microceph.Osd.Plan.Slots.{Distinct, IsVacant}
use microceph.Osd.Plan.Order.{Planned, plan_from-Planned}

abbrev pub starts : (Bytes → Bool) → List Carrier → List CarrierState
starts reset carriers = map (initial_state reset) carriers

-- What the disks at a path have free: all of it where they are reset.
abbrev pub free_at : (Bytes → Bool) → Bytes → List Carrier → ℕ
free_at reset p [] = 0
free_at reset p (c ∷ cs) =
    (if c.path == p then (if reset c.path then c.size else c.size - disk_used_bytes c) else 0)
    + free_at reset p cs

room_at-starts :
    (reset : Bytes → Bool) (p : Bytes) (carriers : List Carrier)
    → room_at p (starts reset carriers) ≤ free_at reset p carriers
unfolding initial_state
room_at-starts reset p [] = omega arith
room_at-starts reset p (c ∷ cs) = ground (arith, room_at-starts reset p cs)

initial_state-IsVacant : (reset : Bytes → Bool) (c : Carrier) → IsVacant (initial_state reset c)
unfolding initial_state is_occupied next_partition_number
initial_state-IsVacant reset c = elim (Bool-cases (reset c.path)) [
  | inl e ↦ rw (e, IsVacant) refl
  | inr e ↦ rw (e, IsVacant) (next_vacant-vacant c.partitions 1).0
]

starts-IsVacant :
    (reset : Bytes → Bool) (carriers : List Carrier) → All IsVacant (starts reset carriers)
starts-IsVacant reset [] = tt
starts-IsVacant reset (c ∷ cs) = (initial_state-IsVacant reset c, starts-IsVacant reset cs)

then_plan-length :
    (q : PlannedPartition) (o : Option (List PlannedPartition)) (n : ℕ)
    (plan : List PlannedPartition)
    → ((rest : List PlannedPartition) → o ≡ some rest → length rest ≡ n)
    → then_plan q o ≡ some plan
    → length plan ≡ suc n
unfolding then_plan
then_plan-length q none n plan later h = cc
then_plan-length q (some rest) n plan later h =
    let same : q ∷ rest ≡ plan = ground arith in
    sym (ap (length {A = PlannedPartition}) same) ∙ ap suc (later rest refl)

next_plan-length :
    (size : ℕ) (states : List CarrierState)
    (later : List CarrierState → Option (List PlannedPartition)) (c : Choice) (n : ℕ)
    (plan : List PlannedPartition)
    → ((states' : List CarrierState) (rest : List PlannedPartition)
        → later states' ≡ some rest
        → length rest ≡ n)
    → next_plan size states later c ≡ some plan
    → length plan ≡ suc n
unfolding next_plan
next_plan-length size states later none n plan rest h = cc
next_plan-length size states later (some (i, s)) n plan rest h =
    then_plan-length (plan_one size s) _ n plan (rest _) h

plan_from-length :
    (osds : List Bytes) (size : ℕ) (states : List CarrierState) (plan : List PlannedPartition)
    → plan_from osds size states ≡ some plan
    → length plan ≡ length osds
unfolding plan_from
plan_from-length [] size states plan h =
    let same : [] ≡ plan = ground arith in sym (ap (length {A = PlannedPartition}) same)
plan_from-length (o ∷ osds) size states plan h =
    next_plan-length size states (plan_from osds size) (choose size states 0 none) (length osds)
      plan (λ states' rest k. plan_from-length osds size states' rest k) h

-- What is promised of the answer: a partition for each OSD, in vacant and different slots, and at
-- each path within what the disks have free.
abbrev pub Fulfils : List Bytes → List Carrier → (Bytes → Bool) → ℕ → List PlannedPartition → Type 0
Fulfils osds carriers reset size plan =
    (length plan ≡ length osds)
    × Planned (starts reset carriers) plan
    × ((p : Bytes) → size * count_at p plan ≤ free_at reset p carriers)

plan_from-Fulfils :
    (osds : List Bytes) (carriers : List Carrier) (reset : Bytes → Bool) (size : ℕ)
    (plan : List PlannedPartition)
    → Distinct (starts reset carriers)
    → plan_from osds size (starts reset carriers) ≡ some plan
    → Fulfils osds carriers reset size plan
plan_from-Fulfils osds carriers reset size plan d h = (
  plan_from-length osds size (starts reset carriers) plan h,
  plan_from-Planned osds size (starts reset carriers) plan d (starts-IsVacant reset carriers) h,
  λ p. omega (
    arith,
    plan_from-room_at p osds size (starts reset carriers) plan h,
    room_at-starts reset p carriers,
  ),
)

planned-Fulfils :
    (osds : List Bytes) (carriers : List Carrier) (reset : Bytes → Bool) (size : ℕ)
    (o : Option (List PlannedPartition)) (out : List (Option PlannedPartition))
    → Distinct (starts reset carriers)
    → plan_from osds size (starts reset carriers) ≡ o
    → planned o ≡ some out
    → (plan : List PlannedPartition) × (out ≡ map (λ q. some q) plan)
      × Fulfils osds carriers reset size plan
unfolding planned
planned-Fulfils osds carriers reset size none out d e h = cc
planned-Fulfils osds carriers reset size (some plan) out d e h =
    (plan, ground arith, plan_from-Fulfils osds carriers reset size plan d e)

-- With carriers of different paths, a plan that is not refused has a partition for each OSD; each
-- takes a slot that is vacant on its disk, and no slot of a disk twice; and the partitions on the
-- disks at a path fit into what these have free, or into all of them where they are reset.
pub plan_auxiliary_partitions-Fulfils :
    (o : Bytes) (osds : List Bytes) (c : Carrier) (cs : List Carrier) (reset : Bytes → Bool)
    (size : ℕ) (out : List (Option PlannedPartition))
    → Distinct (starts reset (c ∷ cs))
    → plan_auxiliary_partitions (o ∷ osds) (c ∷ cs) reset size ≡ some out
    → (plan : List PlannedPartition) × (out ≡ map (λ q. some q) plan)
      × Fulfils (o ∷ osds) (c ∷ cs) reset size plan
unfolding plan_auxiliary_partitions
plan_auxiliary_partitions-Fulfils o osds c cs reset size out d h =
    planned-Fulfils (o ∷ osds) (c ∷ cs) reset size
      (plan_from (o ∷ osds) size (starts reset (c ∷ cs))) out d refl h
