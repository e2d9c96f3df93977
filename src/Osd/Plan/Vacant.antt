-- ===== src/Osd/Plan/Vacant.antt =====
-- The first vacant slot: nextPartitionNumber of microceph/ceph/osd.go, and the same loop in
-- planAuxiliaryPartitionsDetailed of microceph/ceph/osd_waldb.go.
use microceph.Prelude.{
  ℕ, zero, suc, ◌+◌, ◌≤◌, ◌<◌, List, [], ◌∷◌, true, false, ◌≡◌, inl, inr, leb, nat_eq,
  if◌then◌else◌, Bool-cases, length, arith,
}
use microceph.Osd.Plan.{Partition, is_occupied, vacant_from, next_vacant}

-- How many partitions stand in slots from `n` on.
abbrev pub count_from : List Partition → ℕ → ℕ
count_from [] n = 0
count_from (p ∷ ps) n = (if leb n p.partition then 1 else 0) + count_from ps n

count_from-suc : (ps : List Partition) (n : ℕ) → count_from ps (suc n) ≤ count_from ps n
count_from-suc [] n = omega arith
count_from-suc (p ∷ ps) n = ground (arith, count_from-suc ps n)

occupied_drop :
    (ps : List Partition) (n : ℕ)
    → is_occupied ps n ≡ true
    → count_from ps (suc n) < count_from ps n
unfolding is_occupied
occupied_drop [] n h = cc
occupied_drop (p ∷ ps) n h = ground (arith, count_from-suc ps n, occupied_drop ps n)

count_from-length : (ps : List Partition) (n : ℕ) → count_from ps n ≤ length ps
count_from-length [] n = omega arith
count_from-length (p ∷ ps) n = ground (arith, count_from-length ps n)

vacant_from-vacant :
    (rounds : ℕ) (ps : List Partition) (n : ℕ)
    → count_from ps n ≤ rounds
    → (is_occupied ps (vacant_from rounds ps n) ≡ false) × (n ≤ vacant_from rounds ps n)
unfolding vacant_from
vacant_from-vacant zero ps n h = elim (Bool-cases (is_occupied ps n)) [
  | inl e ↦ absurd (omega (arith, occupied_drop ps n e))
  | inr e ↦ (e, omega arith)
]
vacant_from-vacant (suc rounds) ps n h = elim (Bool-cases (is_occupied ps n)) [
  | inl e ↦
      let (vacant, above) =
        vacant_from-vacant rounds ps (suc n) (omega (arith, occupied_drop ps n e)) in
      (rw (e, vacant_from) vacant, rw (e, vacant_from) (omega arith))
  | inr e ↦ (rw (e, vacant_from) e, rw (e, vacant_from) (omega arith))
]

-- The slot that the loop ends with is vacant and not below its start, whatever the partitions.
pub next_vacant-vacant :
    (ps : List Partition) (n : ℕ)
    → (is_occupied ps (next_vacant ps n) ≡ false) × (n ≤ next_vacant ps n)
next_vacant-vacant ps n = vacant_from-vacant (length ps) ps n (count_from-length ps n)
