-- ===== src/Osd/Plan/Capacity.antt =====
-- The room on the carriers: planAuxiliaryPartitionsDetailed of microceph/ceph/osd_waldb.go.
use microceph.Prelude.{
  ℕ, zero, suc, ◌+◌, ◌*◌, ◌≤◌, List, [], ◌∷◌, Bool, true, false, Option, none, some, ◌≡◌, refl, sym,
  ◌==◌, if◌then◌else◌, arith,
}
use microceph.Dsl.Text.{Bytes, bytes_eq}
use microceph.Osd.Plan.{
  CarrierState, PlannedPartition, Choice, choose, set_at, plan_one, take_slot, then_plan, next_plan,
  plan_from,
}
use microceph.Osd.Plan.Choose.{nth, Fits, choose-Fits_all}

-- What is left on the carriers at a path.
abbrev pub room_at : Bytes → List CarrierState → ℕ
room_at p [] = 0
room_at p (s ∷ ss) = (if s.path == p then s.remaining_size else 0) + room_at p ss

-- How many partitions of a plan go to a path.
abbrev pub count_at : Bytes → List PlannedPartition → ℕ
count_at p [] = 0
count_at p (q ∷ qs) = (if q.parent_path == p then 1 else 0) + count_at p qs

room_at-set_at :
    (p : Bytes) (size i : ℕ) (s : CarrierState) (states : List CarrierState)
    → nth i states ≡ some s
    → size ≤ s.remaining_size
    → room_at p states
      ≡ (if s.path == p then size else 0) + room_at p (set_at i (take_slot size s) states)
unfolding set_at take_slot
room_at-set_at p size i s [] h fits = cc
room_at-set_at p size zero s (t ∷ ss) h fits = ground arith
room_at-set_at p size (suc i) s (t ∷ ss) h fits =
    ground (arith, room_at-set_at p size i s ss h fits)

one_more :
    (b : Bool) (size count room : ℕ)
    → size * count ≤ room
    → size * ((if b then 1 else 0) + count) ≤ (if b then size else 0) + room
one_more true size count room h = grind arith
one_more false size count room h = grind arith

module _ (p : Bytes) (size : ℕ) (states : List CarrierState) where
  then_plan-room_at :
      (i : ℕ) (s : CarrierState) (o : Option (List PlannedPartition)) (plan : List PlannedPartition)
      → nth i states ≡ some s
      → size ≤ s.remaining_size
      → ((rest : List PlannedPartition)
          → o ≡ some rest
          → size * count_at p rest ≤ room_at p (set_at i (take_slot size s) states))
      → then_plan (plan_one size s) o ≡ some plan
      → size * count_at p plan ≤ room_at p states
  unfolding then_plan plan_one
  then_plan-room_at i s none plan at fits later h = cc
  then_plan-room_at i s (some rest) plan at fits later h =
      let same : plan ≡ plan_one size s ∷ rest = ground arith in
      rw (same, room_at-set_at p size i s states at fits)
        (one_more (s.path == p) size (count_at p rest) _ (later rest refl))

  next_plan-room_at :
      (later : List CarrierState → Option (List PlannedPartition)) (c : Choice)
      (plan : List PlannedPartition)
      → ((states' : List CarrierState) (rest : List PlannedPartition)
          → later states' ≡ some rest
          → size * count_at p rest ≤ room_at p states')
      → Fits size states c
      → next_plan size states later c ≡ some plan
      → size * count_at p plan ≤ room_at p states
  unfolding next_plan
  next_plan-room_at later none plan rest_fit fits h = cc
  next_plan-room_at later (some (i, s)) plan rest_fit (at, room) h =
      let states' = set_at i (take_slot size s) states in
      then_plan-room_at i s (later states') plan at room (rest_fit states') h

-- On the carriers at a path, the partitions planned there fit into the room that was left.
pub plan_from-room_at :
    (p : Bytes) (osds : List Bytes) (size : ℕ) (states : List CarrierState)
    (plan : List PlannedPartition)
    → plan_from osds size states ≡ some plan
    → size * count_at p plan ≤ room_at p states
unfolding plan_from
plan_from-room_at p [] size states plan h =
    let same : [] ≡ plan = ground arith in rw (sym same) (grind arith)
plan_from-room_at p (o ∷ osds) size states plan h =
    next_plan-room_at p size states (plan_from osds size) (choose size states 0 none) plan
      (λ states' rest k. plan_from-room_at p osds size states' rest k) (choose-Fits_all size states)
      h
