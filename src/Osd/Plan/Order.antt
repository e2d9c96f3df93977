-- ===== src/Osd/Plan/Order.antt =====
-- The plan against the disks: planAuxiliaryPartitionsDetailed of microceph/ceph/osd_waldb.go.
use microceph.Prelude.{
  ℕ, suc, ◌≤◌, ◌<◌, List, [], ◌∷◌, false, Option, none, some, ◌≡◌, refl, sym, ap, subst, ◌≢◌, ◌⊎◌,
  inl, inr, ◌==◌, ne_of_beq, Bool-cases, All, All-map, arith,
}
use microceph.Dsl.Text.{Bytes, bytes_eq}
use microceph.Osd.Plan.{
  CarrierState, PlannedPartition, Choice, is_occupied, choose, set_at, plan_one, take_slot,
  then_plan, next_plan, plan_from,
}
use microceph.Osd.Plan.Choose.{nth, Fits, choose-Fits_all}
use microceph.Osd.Plan.Vacant.{next_vacant-vacant}
use microceph.Osd.Plan.Slots.{
  Distinct, next_slot, parts_at, IsVacant, Distinct-set_at, next_slot-nth, next_slot-set_at,
  parts_at-set_at, parts_at-nth, IsVacant-set_at, IsVacant-nth,
}

-- A planned partition takes a slot that is vacant on its disk and not below the next one.
abbrev pub Placed : List CarrierState → PlannedPartition → Type 0
Placed states q =
    (next_slot q.parent_path states ≤ q.partition)
    × (is_occupied (parts_at q.parent_path states) q.partition ≡ false)

-- `r` is planned on another carrier than `q`, or in a higher slot.
abbrev pub IsBehind : PlannedPartition → PlannedPartition → Type 0
IsBehind q r = (r.parent_path ≢ q.parent_path) ⊎ (q.partition < r.partition)

abbrev pub Increasing : List PlannedPartition → Type 0
Increasing [] = Unit
Increasing (q ∷ qs) = All (IsBehind q) qs × Increasing qs

abbrev pub Planned : List CarrierState → List PlannedPartition → Type 0
Planned states plan = All (Placed states) plan × Increasing plan

module _ (size : ℕ) (states : List CarrierState) (distinct : Distinct states) (i : ℕ)
    (s : CarrierState) (at : nth i states ≡ some s) where
  -- A partition planned behind the one on `s`.
  behind :
      (r : PlannedPartition)
      → Placed (set_at i (take_slot size s) states) r
      → Placed states r × IsBehind (plan_one size s) r
  unfolding plan_one
  behind r (above, vacant) =
      let slot = next_slot-set_at r.parent_path size i s states at distinct in
      let here = next_slot-nth i s states at distinct in
      let higher = (next_vacant-vacant s.partitions (suc s.partition_no)).1 in
      let free =
        subst (λ ps. is_occupied ps r.partition ≡ false)
          (parts_at-set_at r.parent_path size i s states at) vacant in
      elim (Bool-cases (s.path == r.parent_path)) [
        | inl e ↦
            let same : s.path ≡ r.parent_path = (bytes_eq.beq_iff s.path r.parent_path).0 e in
            let low = ap (λ p. next_slot p states) same in
            ((ground arith, free), inr (ground arith))
        | inr e ↦ ((ground arith, free), inl (λ k. ne_of_beq s.path r.parent_path e (sym k)))
      ]

  here_Placed : All IsVacant states → Placed states (plan_one size s)
  unfolding plan_one
  here_Placed vacant = (
    omega (arith, next_slot-nth i s states at distinct),
    rw (parts_at-nth i s states at distinct) (IsVacant-nth i s states at vacant),
  )

  rest_Planned :
      (o : Option (List PlannedPartition)) (plan : List PlannedPartition)
      → All IsVacant states
      → ((rest : List PlannedPartition)
          → o ≡ some rest
          → Planned (set_at i (take_slot size s) states) rest)
      → then_plan (plan_one size s) o ≡ some plan
      → Planned states plan
  unfolding then_plan
  rest_Planned none plan vacant later h = cc
  rest_Planned (some rest) plan vacant later h =
      let same : plan_one size s ∷ rest ≡ plan = ground arith in
      let (placed, ordered) = later rest refl in
      let q = plan_one size s in
      let all =
        All-map (Placed (set_at i (take_slot size s) states)) (λ r. Placed states r × IsBehind q r)
          rest behind placed in
      subst (Planned states) same (
        (here_Placed vacant, All-map _ (Placed states) rest (λ r b. b.0) all),
        (All-map (λ r. Placed states r × IsBehind q r) (IsBehind q) rest (λ r b. b.1) all, ordered),
      )

chosen_Planned :
    (size : ℕ) (states : List CarrierState)
    (later : List CarrierState → Option (List PlannedPartition)) (c : Choice)
    (plan : List PlannedPartition)
    → Distinct states
    → All IsVacant states
    → ((states' : List CarrierState) (rest : List PlannedPartition)
        → Distinct states'
        → All IsVacant states'
        → later states' ≡ some rest
        → Planned states' rest)
    → Fits size states c
    → next_plan size states later c ≡ some plan
    → Planned states plan
unfolding next_plan
chosen_Planned size states later none plan d v next fits h = cc
chosen_Planned size states later (some (i, s)) plan d v next (at, room) h =
    let states' = set_at i (take_slot size s) states in
    rest_Planned size states d i s at (later states') plan v
      (λ rest k.
        next states' rest (Distinct-set_at size i s states at d) (IsVacant-set_at size i s states v)
          k)
      h

-- From carriers with different paths, whose next slots are vacant, every planned partition takes a
-- slot that is vacant on its disk, and of two planned on one carrier the later takes the higher
-- slot: no slot is taken twice.
pub plan_from-Planned :
    (osds : List Bytes) (size : ℕ) (states : List CarrierState) (plan : List PlannedPartition)
    → Distinct states
    → All IsVacant states
    → plan_from osds size states ≡ some plan
    → Planned states plan
unfolding plan_from
plan_from-Planned [] size states plan d v h =
    let same : [] ≡ plan = ground arith in subst (Planned states) same (tt, tt)
plan_from-Planned (o ∷ osds) size states plan d v h =
    chosen_Planned size states (plan_from osds size) (choose size states 0 none) plan d v
      (λ states' rest d' v' k. plan_from-Planned osds size states' rest d' v' k)
      (choose-Fits_all size states) h
