-- ===== src/Osd/Plan/Suffices.antt =====
-- When the planner finds room: planAuxiliaryPartitionsDetailed of microceph/ceph/osd_waldb.go.
use microceph.Prelude.{
  ℕ, zero, suc, ◌*◌, ◌≤◌, List, [], ◌∷◌, Bool, false, Option, none, some, ◌≡◌, ◌≢◌, refl, subst,
  ◌⊎◌, inl, inr, ltb, Bool-cases, length, arith,
}
use microceph.Dsl.Text.{Bytes}
use microceph.Osd.Plan.{
  Carrier, CarrierState, PlannedPartition, Choice, prefer, choose, set_at, plan_one, take_slot,
  then_plan, next_plan, plan_from, planned, plan_auxiliary_partitions,
}
use microceph.Osd.Plan.Choose.{nth, Fits, choose-Fits_all}
use microceph.Osd.Plan.Start.{starts}

prefer-some : (idx : ℕ) (s : CarrierState) (best : Choice) → prefer idx s best ≢ none
unfolding prefer
prefer-some idx s none h = cc
prefer-some idx s (some (i, best)) h = ground arith

choose-some :
    (size : ℕ) (rest : List CarrierState) (idx : ℕ) (best : Choice)
    → best ≢ none
    → choose size rest idx best ≢ none
unfolding choose
choose-some size [] idx best h = h
choose-some size (s ∷ ss) idx best h = elim (Bool-cases (ltb s.remaining_size size)) [
  | inl e ↦ rw e (choose-some size ss (suc idx) best h)
  | inr e ↦ rw e (choose-some size ss (suc idx) (prefer idx s best) (prefer-some idx s best))
]

choose-room :
    (size i : ℕ) (s : CarrierState) (rest : List CarrierState) (idx : ℕ) (best : Choice)
    → nth i rest ≡ some s
    → size ≤ s.remaining_size
    → choose size rest idx best ≢ none
unfolding choose
choose-room size i s [] idx best at room = cc
choose-room size zero s (t ∷ ss) idx best at room =
    let fits : ltb t.remaining_size size ≡ false = ground arith in
    rw fits (choose-some size ss (suc idx) (prefer idx t best) (prefer-some idx t best))
choose-room size (suc i) s (t ∷ ss) idx best at room = choose-room size i s ss (suc idx) _ at room

-- What stands at one index once another, or the same, is replaced.
nth-set_at :
    (i j : ℕ) (s t t' : CarrierState) (states : List CarrierState)
    → nth i states ≡ some s
    → nth j states ≡ some t
    → (nth i (set_at j t' states) ≡ some s) ⊎ ((s ≡ t) × (nth i (set_at j t' states) ≡ some t'))
unfolding set_at
nth-set_at i j s t t' [] at there = cc
nth-set_at zero zero s t t' (u ∷ us) at there = inr (ground arith, refl)
nth-set_at zero (suc j) s t t' (u ∷ us) at there = inl at
nth-set_at (suc i) zero s t t' (u ∷ us) at there = inl at
nth-set_at (suc i) (suc j) s t t' (u ∷ us) at there = nth-set_at i j s t t' us at there

-- Some carrier has room for `n` partitions.
abbrev pub HasRoom : ℕ → ℕ → List CarrierState → Type 0
HasRoom size n states =
    (i : ℕ) × (s : CarrierState) × (nth i states ≡ some s) × (size * n ≤ s.remaining_size)

HasRoom-set_at :
    (size n j : ℕ) (t : CarrierState) (states : List CarrierState)
    → nth j states ≡ some t
    → HasRoom size (suc n) states
    → HasRoom size n (set_at j (take_slot size t) states)
unfolding take_slot
HasRoom-set_at size n j t states there (i, s, at, room) =
    elim (nth-set_at i j s t (take_slot size t) states at there) [
      | inl still ↦ (i, s, still, grind arith)
      | inr (same, new) ↦
          let enough : size * suc n ≤ t.remaining_size =
            subst (λ (x : CarrierState). size * suc n ≤ x.remaining_size) same room in
          (i, take_slot size t, new, grind arith)
    ]

then_plan-some :
    (q : PlannedPartition) (o : Option (List PlannedPartition)) → o ≢ none → then_plan q o ≢ none
unfolding then_plan
then_plan-some q none h = h
then_plan-some q (some plan) h = λ k. cc

next_plan-some :
    (size n : ℕ) (states : List CarrierState)
    (later : List CarrierState → Option (List PlannedPartition)) (c : Choice)
    → c ≢ none
    → Fits size states c
    → HasRoom size (suc n) states
    → ((states' : List CarrierState) → HasRoom size n states' → later states' ≢ none)
    → next_plan size states later c ≢ none
unfolding next_plan
next_plan-some size n states later none chosen fits room rest = absurd (chosen refl)
next_plan-some size n states later (some (j, t)) chosen (there, _) room rest =
    then_plan-some (plan_one size t) _ (rest _ (HasRoom-set_at size n j t states there room))

plan_from-some :
    (osds : List Bytes) (size : ℕ) (states : List CarrierState)
    → HasRoom size (length osds) states
    → plan_from osds size states ≢ none
unfolding plan_from
plan_from-some [] size states room = λ h. cc
plan_from-some (o ∷ osds) size states (i, s, at, room) =
    next_plan-some size (length osds) states (plan_from osds size) (choose size states 0 none)
      (choose-room size i s states 0 none at (grind arith)) (choose-Fits_all size states)
      (i, s, at, room) (λ states' room'. plan_from-some osds size states' room')

planned-some : (o : Option (List PlannedPartition)) → o ≢ none → planned o ≢ none
unfolding planned
planned-some none h = absurd (h refl)
planned-some (some plan) h = λ k. cc

-- Where one of the carriers alone has room for the partitions of all OSDs, the plan is not refused.
pub plan_auxiliary_partitions-some :
    (osds : List Bytes) (carriers : List Carrier) (reset : Bytes → Bool) (size i : ℕ)
    (s : CarrierState)
    → nth i (starts reset carriers) ≡ some s
    → size * length osds ≤ s.remaining_size
    → plan_auxiliary_partitions osds carriers reset size ≢ none
unfolding plan_auxiliary_partitions
plan_auxiliary_partitions-some [] carriers reset size i s at room = λ h. cc
plan_auxiliary_partitions-some (o ∷ osds) [] reset size i s at room = cc
plan_auxiliary_partitions-some (o ∷ osds) (c ∷ cs) reset size i s at room =
    planned-some (plan_from (o ∷ osds) size (starts reset (c ∷ cs)))
      (plan_from-some (o ∷ osds) size (starts reset (c ∷ cs)) (i, s, at, room))
