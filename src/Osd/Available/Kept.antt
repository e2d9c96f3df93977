-- ===== src/Osd/Available/Kept.antt =====
-- Which disks FilterAvailableDisks of microceph/common/storage.go keeps.
use microceph.Prelude.{
  ℕ, ◌≤◌, String, List, [], ◌∷◌, Bool, true, false, ◌≡◌, ◌↔◌, refl, ◌==◌, Result, ok, arith,
  Bool-cases, inl, inr, All, ◌⊎◌, subst, sym,
}
use microceph.Dsl.Text.{Bytes, bytes_eq}
use microceph.Dsl.Device.{Disk, get_device_path}
use microceph.Osd.Available.{
  ConfiguredPath, DiskFilterConfig, min_osd_size, has_partitions, is_configured, passes,
  is_appended, filter_from, filter_available_disks,
}

-- Fit for an OSD: a writable disk without partitions of at least 2 GB, which is no OSD of this host
-- and is known to be neither mounted nor in use as a WAL or DB device.
abbrev pub Fit : DiskFilterConfig → Bytes → List ConfiguredPath → Disk → Type 0
Fit cfg hostname configured disk =
    (disk.read_only ≡ false)
    × (disk.partitions ≡ [])
    × (min_osd_size ≤ disk.size)
    × All (λ c. (c.location == hostname) ≡ true → (c.path == get_device_path disk) ≡ false)
        configured
    × (cfg.is_mounted (get_device_path disk) ≡ ok false)
    × (cfg.is_ceph_device (get_device_path disk) ≡ ok false)

not_configured :
    (hostname path : Bytes) (cs : List ConfiguredPath)
    → is_configured hostname path cs ≡ false
    → All (λ c. (c.location == hostname) ≡ true → (c.path == path) ≡ false) cs
unfolding is_configured
not_configured hostname path [] h = tt
not_configured hostname path (c ∷ cs) h =
    (λ here. ground arith, not_configured hostname path cs (ground arith))

none_configured :
    (hostname path : Bytes) (cs : List ConfiguredPath)
    → All (λ c. (c.location == hostname) ≡ true → (c.path == path) ≡ false) cs
    → is_configured hostname path cs ≡ false
unfolding is_configured
none_configured hostname path [] h = refl
none_configured hostname path (c ∷ cs) (here, there) =
    let rest = none_configured hostname path cs there in ground arith

passes-unused : (r : Result String Bool) → passes r ≡ true → r ≡ ok false
unfolding passes
passes-unused r h = ground arith

unpartitioned :
    (disk : Disk) (ps : List ℕ) → disk.partitions ≡ ps → has_partitions disk ≡ false → ps ≡ []
unfolding has_partitions
unpartitioned disk [] same h = refl
unpartitioned disk (p ∷ ps) same h =
    let some_there : has_partitions disk ≡ true = rw (same, has_partitions) refl in cc

is_appended-Fit :
    (cfg : DiskFilterConfig) (hostname : Bytes) (configured : List ConfiguredPath) (disk : Disk)
    → is_appended cfg hostname configured disk ≡ true
    → Fit cfg hostname configured disk
unfolding is_appended
is_appended-Fit cfg hostname configured disk h =
    let path = get_device_path disk in
    let apart : is_configured hostname path configured ≡ false = ground arith in
    (
      ground arith,
      unpartitioned disk disk.partitions refl (ground arith),
      ground arith,
      not_configured hostname path configured apart,
      passes-unused (cfg.is_mounted path) (ground arith),
      passes-unused (cfg.is_ceph_device path) (ground arith),
    )

Fit-is_appended :
    (cfg : DiskFilterConfig) (hostname : Bytes) (configured : List ConfiguredPath) (disk : Disk)
    → Fit cfg hostname configured disk
    → is_appended cfg hostname configured disk ≡ true
unfolding is_appended
Fit-is_appended cfg hostname configured disk (writable, whole, big, apart, unmounted, unused) =
    let path = get_device_path disk in
    let free = none_configured hostname path configured apart in
    let unsplit : has_partitions disk ≡ false = rw (whole, has_partitions) refl in
    let quiet : passes (cfg.is_mounted path) ≡ true = rw (unmounted, passes) refl in
    let bare : passes (cfg.is_ceph_device path) ≡ true = rw (unused, passes) refl in ground arith

-- The members of a list.
abbrev pub Among : Disk → List Disk → Type 0
Among d [] = ⊥
Among d (e ∷ es) = (d ≡ e) ⊎ Among d es

-- A disk is kept exactly if it is one of the disks and is Fit.
filter_from-Among :
    (cfg : DiskFilterConfig) (hostname : Bytes) (configured : List ConfiguredPath) (d : Disk)
    (disks : List Disk)
    → Among d (filter_from cfg hostname configured disks)
      ↔ (Among d disks × Fit cfg hostname configured d)
unfolding filter_from
filter_from-Among cfg hostname configured d [] = ((λ m. absurd m), λ both. absurd both.0)
filter_from-Among cfg hostname configured d (e ∷ es) =
    let later = filter_from-Among cfg hostname configured d es in
    elim (Bool-cases (is_appended cfg hostname configured e)) [
      | inl t ↦ rw t (
        (λ m. elim m [
          | inl same ↦ (
            inl same,
            subst (Fit cfg hostname configured) (sym same)
                (is_appended-Fit cfg hostname configured e t),
          )
          | inr there ↦ (inr (later.0 there).0, (later.0 there).1)
        ]),
        λ both. elim both.0 [ inl same ↦ inl same | inr there ↦ inr (later.1 (there, both.1)) ],
      )
      | inr f ↦ rw f (
        (λ m. (inr (later.0 m).0, (later.0 m).1)),
        λ both. elim both.0 [
          | inl same ↦
              let kept =
                Fit-is_appended cfg hostname configured e
                  (subst (Fit cfg hostname configured) same both.1) in
              let bad : true ≡ false = cc in cc
          | inr there ↦ later.1 (there, both.1)
        ],
      )
    ]

-- Where the host has a name, the disks that FilterAvailableDisks gives are exactly the disks that are
-- Fit.
pub filter_available_disks-Among :
    (cfg : DiskFilterConfig) (hostname : Bytes) (configured : List ConfiguredPath)
    (disks out : List Disk) (d : Disk)
    → filter_available_disks cfg (ok hostname) disks configured ≡ ok out
    → Among d out ↔ (Among d disks × Fit cfg hostname configured d)
unfolding filter_available_disks
filter_available_disks-Among cfg hostname configured disks out d h =
    let kept : filter_from cfg hostname configured disks ≡ out = cc in
    subst (λ o. Among d o ↔ (Among d disks × Fit cfg hostname configured d)) kept
      (filter_from-Among cfg hostname configured d disks)
