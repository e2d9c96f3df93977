-- ===== src/Osd/Plan/Choose.antt =====
-- The choice of a carrier in planAuxiliaryPartitionsDetailed of microceph/ceph/osd_waldb.go.
use microceph.Prelude.{
  ℕ, zero, suc, ◌+◌, ◌≤◌, List, [], ◌∷◌, Option, none, some, ◌≡◌, sym, ap, ◌∙◌, inl, inr, ltb,
  Bool-cases, arith, nat_eq,
}
use microceph.Osd.Plan.{CarrierState, Choice, is_better, prefer, choose}

-- The element at an index.
abbrev pub nth : ℕ → List CarrierState → Option CarrierState
nth i [] = none
nth zero (s ∷ ss) = some s
nth (suc i) (s ∷ ss) = nth i ss

-- The choice stands in the list and has room.
abbrev pub Fits : ℕ → List CarrierState → Choice → Type 0
Fits size all none = Unit
Fits size all (some (i, s)) = (nth i all ≡ some s) × (size ≤ s.remaining_size)

module _ (size : ℕ) (all : List CarrierState) where
  prefer-Fits :
      (idx : ℕ) (s : CarrierState) (best : Choice)
      → nth idx all ≡ some s
      → size ≤ s.remaining_size
      → Fits size all best
      → Fits size all (prefer idx s best)
  unfolding prefer
  prefer-Fits idx s none at room h = (at, room)
  prefer-Fits idx s (some (i, best)) at room h = elim (Bool-cases (is_better s best)) [
    | inl e ↦ rw (e, Fits) (at, room)
    | inr e ↦ rw (e, Fits) h
  ]

  shifted :
      (s : CarrierState) (ss : List CarrierState) (idx : ℕ)
      → ((k : ℕ) → nth k (s ∷ ss) ≡ nth (k + idx) all)
      → (k : ℕ) → nth k ss ≡ nth (k + suc idx) all
  shifted s ss idx at k =
      let shift : k + suc idx ≡ suc k + idx = omega arith in rw shift (at (suc k))

  head_at :
      (s : CarrierState) (ss : List CarrierState) (idx : ℕ)
      → ((k : ℕ) → nth k (s ∷ ss) ≡ nth (k + idx) all)
      → nth idx all ≡ some s
  head_at s ss idx at =
      let start : idx ≡ 0 + idx = omega arith in ap (λ n. nth n all) start ∙ sym (at zero)

  pub choose-Fits :
      (rest : List CarrierState) (idx : ℕ) (best : Choice)
      → ((k : ℕ) → nth k rest ≡ nth (k + idx) all)
      → Fits size all best
      → Fits size all (choose size rest idx best)
  unfolding choose
  choose-Fits [] idx best at h = h
  choose-Fits (s ∷ ss) idx best at h = elim (Bool-cases (ltb s.remaining_size size)) [
    | inl small ↦ rw small (choose-Fits ss (suc idx) best (shifted s ss idx at) h)
    | inr fits ↦ rw fits (
        choose-Fits ss (suc idx) (prefer idx s best) (shifted s ss idx at)
          (prefer-Fits idx s best (head_at s ss idx at) (ground arith) h))
  ]

-- The choice among all carriers stands in the list and has room.
pub choose-Fits_all :
    (size : ℕ) (states : List CarrierState) → Fits size states (choose size states 0 none)
choose-Fits_all size states =
    choose-Fits size states states 0 none (λ k. ap (λ n. nth n states) (omega arith)) tt
