-- ===== src/Osd/Plan/Slots.antt =====
-- The slots of the planned partitions: planAuxiliaryPartitionsDetailed of
-- microceph/ceph/osd_waldb.go.
use microceph.Prelude.{
  ℕ, zero, suc, List, [], ◌∷◌, Bool, true, false, some, ◌≡◌, refl, ap, inl, inr, ◌==◌, ◌||◌,
  beq_refl, if◌then◌else◌, Bool-cases, All, arith,
}
use microceph.Dsl.Text.{Bytes, bytes_eq}
use microceph.Osd.Plan.{Partition, CarrierState, is_occupied, next_vacant, set_at, take_slot}
use microceph.Osd.Plan.Choose.{nth}
use microceph.Osd.Plan.Vacant.{next_vacant-vacant}

abbrev pub has_path : Bytes → List CarrierState → Bool
has_path p [] = false
has_path p (s ∷ ss) = s.path == p || has_path p ss

-- No two carriers have one path.
abbrev pub Distinct : List CarrierState → Type 0
Distinct [] = Unit
Distinct (s ∷ ss) = (has_path s.path ss ≡ false) × Distinct ss

-- The next slot of the carrier at a path.
abbrev pub next_slot : Bytes → List CarrierState → ℕ
next_slot p [] = 0
next_slot p (s ∷ ss) = if s.path == p then s.partition_no else next_slot p ss

has_path-nth :
    (i : ℕ) (s : CarrierState) (ss : List CarrierState)
    → nth i ss ≡ some s
    → has_path s.path ss ≡ true
has_path-nth i s [] h = cc
has_path-nth zero s (t ∷ ss) h = ground (arith, beq_refl s.path)
has_path-nth (suc i) s (t ∷ ss) h = ground (arith, has_path-nth i s ss h)

has_path-set_at :
    (p : Bytes) (size i : ℕ) (s : CarrierState) (ss : List CarrierState)
    → nth i ss ≡ some s
    → has_path p (set_at i (take_slot size s) ss) ≡ has_path p ss
unfolding set_at take_slot
has_path-set_at p size i s [] h = refl
has_path-set_at p size zero s (t ∷ ss) h = ground arith
has_path-set_at p size (suc i) s (t ∷ ss) h = ground (arith, has_path-set_at p size i s ss h)

pub Distinct-set_at :
    (size i : ℕ) (s : CarrierState) (ss : List CarrierState)
    → nth i ss ≡ some s
    → Distinct ss
    → Distinct (set_at i (take_slot size s) ss)
unfolding set_at take_slot
Distinct-set_at size i s [] h d = d
Distinct-set_at size zero s (t ∷ ss) h (d, ds) = (ground arith, ds)
Distinct-set_at size (suc i) s (t ∷ ss) h (d, ds) =
    (ground (arith, has_path-set_at t.path size i s ss h), Distinct-set_at size i s ss h ds)

-- The carrier in front of another one has another path.
apart :
    (i : ℕ) (s t : CarrierState) (ss : List CarrierState)
    → nth i ss ≡ some s
    → has_path t.path ss ≡ false
    → (t.path == s.path) ≡ false
apart i s t ss h d = elim (Bool-cases (t.path == s.path)) [
  | inl e ↦
      let same : t.path ≡ s.path = (bytes_eq.beq_iff t.path s.path).0 e in
      absurd (cc (has_path-nth i s ss h, ap (λ p. has_path p ss) same))
  | inr e ↦ e
]

pub next_slot-nth :
    (i : ℕ) (s : CarrierState) (ss : List CarrierState)
    → nth i ss ≡ some s
    → Distinct ss
    → next_slot s.path ss ≡ s.partition_no
next_slot-nth i s [] h d = cc
next_slot-nth zero s (t ∷ ss) h d = ground (arith, beq_refl s.path)
next_slot-nth (suc i) s (t ∷ ss) h (d, ds) = rw (apart i s t ss h d) (next_slot-nth i s ss h ds)

pub next_slot-set_at :
    (p : Bytes) (size i : ℕ) (s : CarrierState) (ss : List CarrierState)
    → nth i ss ≡ some s
    → Distinct ss
    → next_slot p (set_at i (take_slot size s) ss)
      ≡ (if s.path == p then next_vacant s.partitions (suc s.partition_no) else next_slot p ss)
unfolding set_at take_slot
next_slot-set_at p size i s [] h d = cc
next_slot-set_at p size zero s (t ∷ ss) h d = ground arith
next_slot-set_at p size (suc i) s (t ∷ ss) h (d, ds) = ground (
  arith,
  next_slot-set_at p size i s ss h ds,
  apart i s t ss h d,
  bytes_eq.beq_iff t.path p,
  bytes_eq.beq_iff s.path p,
  bytes_eq.beq_iff t.path s.path,
)

-- The partitions on the disk at a path.
abbrev pub parts_at : Bytes → List CarrierState → List Partition
parts_at p [] = []
parts_at p (s ∷ ss) = if s.path == p then s.partitions else parts_at p ss

pub parts_at-set_at :
    (p : Bytes) (size i : ℕ) (s : CarrierState) (ss : List CarrierState)
    → nth i ss ≡ some s
    → parts_at p (set_at i (take_slot size s) ss) ≡ parts_at p ss
unfolding set_at take_slot
parts_at-set_at p size i s [] h = refl
parts_at-set_at p size zero s (t ∷ ss) h = ground arith
parts_at-set_at p size (suc i) s (t ∷ ss) h = rw (parts_at-set_at p size i s ss h) refl

pub parts_at-nth :
    (i : ℕ) (s : CarrierState) (ss : List CarrierState)
    → nth i ss ≡ some s
    → Distinct ss
    → parts_at s.path ss ≡ s.partitions
parts_at-nth i s [] h d = cc
parts_at-nth zero s (t ∷ ss) h d = ground (arith, beq_refl s.path)
parts_at-nth (suc i) s (t ∷ ss) h (d, ds) = rw (apart i s t ss h d) (parts_at-nth i s ss h ds)

-- The next slot of a carrier is vacant on its disk.
abbrev pub IsVacant : CarrierState → Type 0
IsVacant s = is_occupied s.partitions s.partition_no ≡ false

pub IsVacant-set_at :
    (size i : ℕ) (s : CarrierState) (ss : List CarrierState)
    → All IsVacant ss
    → All IsVacant (set_at i (take_slot size s) ss)
unfolding set_at take_slot
IsVacant-set_at size i s [] h = tt
IsVacant-set_at size zero s (t ∷ ss) (h, hs) =
    ((next_vacant-vacant s.partitions (suc s.partition_no)).0, hs)
IsVacant-set_at size (suc i) s (t ∷ ss) (h, hs) = (h, IsVacant-set_at size i s ss hs)

pub IsVacant-nth :
    (i : ℕ) (s : CarrierState) (ss : List CarrierState)
    → nth i ss ≡ some s
    → All IsVacant ss
    → IsVacant s
IsVacant-nth i s [] h all = cc
IsVacant-nth zero s (t ∷ ss) h (v, vs) = ground arith
IsVacant-nth (suc i) s (t ∷ ss) h (v, vs) = IsVacant-nth i s ss h vs
