-- ===== src/Dsl/Units.antt =====
-- Sizes with a unit: microceph/dsl/units.go.
use microceph.Prelude.{
  ℕ, ◌*◌, List, [], ◌∷◌, Bool, ◌||◌, none, some, ◌==◌, nat_eq, if◌then◌else◌, lookup, Result, ok,
  err, map,
}
use microceph.Dsl.Text.{Bytes, codes, bytes_eq, is_digit, upper, trim_space}
use microceph.Dsl.Library.{Library}

pub data UnitError : Type 0 where
  empty_number : UnitError
  invalid_format invalid_number unknown_unit : Bytes → UnitError

abbrev pub unit_multipliers : List (Bytes × ℕ)
unit_multipliers =
    (codes "B", 1)
    ∷ (codes "KIB", kib)
    ∷ (codes "MIB", mib)
    ∷ (codes "GIB", gib)
    ∷ (codes "TIB", tib)
    ∷ (codes "PIB", 1024 * tib)
    ∷ (codes "KB", kb)
    ∷ (codes "MB", mb)
    ∷ (codes "GB", gb)
    ∷ (codes "TB", tb)
    ∷ (codes "PB", 1000 * tb)
    ∷ (codes "K", kb)
    ∷ (codes "M", mb)
    ∷ (codes "G", gb)
    ∷ (codes "T", tb)
    ∷ (codes "P", 1000 * tb)
    ∷ []
  where
    kib : ℕ
    kib = 1024

    mib : ℕ
    mib = 1024 * kib

    gib : ℕ
    gib = 1024 * mib

    tib : ℕ
    tib = 1024 * gib

    kb : ℕ
    kb = 1000

    mb : ℕ
    mb = 1000 * kb

    gb : ℕ
    gb = 1000 * mb

    tb : ℕ
    tb = 1000 * gb

is_number_byte : ℕ → Bool
is_number_byte c = is_digit c || c == b'.' || c == b'-' || c == b'+'

-- The numeric part and what follows it.
unfoldable pub split_number : Bytes → Bytes × Bytes
unfolding is_number_byte
split_number [] = ([], [])
split_number (c ∷ cs) =
    let (num, unit) = split_number cs in if is_number_byte c then (c ∷ num, unit) else ([], c ∷ cs)

-- The value in bytes and the unit, for a numeric part and a unit part.
with_unit : (F : Library) → Bytes → Bytes → Result UnitError (F.Number × Bytes)
with_unit F num unit = elim (F.parse_float num) [
  | none ↦ err (invalid_number num)
  | some value ↦ if unit == [] then ok (value, []) else scaled value
]
  where
    scaled : F.Number → Result UnitError (F.Number × Bytes)
    scaled value = elim (lookup (map upper unit) unit_multipliers) [
      | none ↦ err (unknown_unit unit)
      | some multiplier ↦ ok (F.times value (F.of_nat multiplier), unit)
    ]

-- ParseNumberWithUnit.
unfoldable pub parse_number_with_unit : (F : Library) → Bytes → Result UnitError (F.Number × Bytes)
unfolding split_number with_unit
parse_number_with_unit F s =
    let (num, unit) = split_number s in
    if s == []
    then err empty_number
    else if num == []
    then err (invalid_format s)
    else with_unit F num (trim_space unit)
