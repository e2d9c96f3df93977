-- ===== src/Dsl/Value.antt =====
-- The values of the evaluator, and how they are compared: microceph/dsl/vars.go and
-- microceph/dsl/eval.go.
use Prim.Native.Nat.{Ordering}
use microceph.Prelude.{
  [], Bool, false, not, Option, none, some, ◌==◌, if◌then◌else◌, Result, ok, err,
}
use microceph.Dsl.Text.{Bytes, codes, bytes_eq, to_lower, bytes_less}
use microceph.Dsl.Library.{Library}
use microceph.Dsl.Device.{DeviceContext, extract_vendor}

pub data Value (N : Type 0) : Type 0 where
  nil_value : Value N
  bool_value : Bool → Value N
  string_value : Bytes → Value N
  number_value : N → Value N

pub data ValueType : Type 0 where
  nil_type bool_type string_type number_type : ValueType

-- Type.
unfoldable pub type_of : {N : Type 0} → Value N → ValueType
type_of nil_value = nil_type
type_of (bool_value _) = bool_type
type_of (string_value _) = string_type
type_of (number_value _) = number_type

module _ (F : Library) where
  abbrev pub Val : Type 0
  Val = Value F.Number

  -- Bool.
  unfoldable pub truth : Val → Bool
  truth nil_value = false
  truth (bool_value b) = b
  truth (string_value s) = not (s == [])
  truth (number_value n) = not (F.equal n (F.of_nat 0))

  -- String.
  unfoldable pub text_of : Val → Bytes
  text_of nil_value = []
  text_of (bool_value b) = if b then codes "true" else codes "false"
  text_of (string_value s) = s
  text_of (number_value n) = F.format n

  -- strings.EqualFold, on ASCII.
  equal_fold : Val → Val → Bool
  equal_fold a b = to_lower (text_of a) == to_lower (text_of b)

  -- valuesEqual.
  unfoldable pub values_equal : Val → Val → Bool
  unfolding equal_fold
  values_equal (number_value m) (number_value n) = F.equal m n
  values_equal (bool_value a) (bool_value b) = if a then b else not b
  values_equal a b = equal_fold a b

  -- compareValues: -1, 0 and 1 as an ordering, or the two types that cannot be compared.
  unfoldable pub compare_values : Val → Val → Result (ValueType × ValueType) Ordering
  unfolding type_of
  compare_values (number_value m) (number_value n) =
      ok (if F.less m n then Ordering.lt else if F.less n m then Ordering.gt else Ordering.eq)
  compare_values (string_value a) (string_value b) =
      ok (
        if bytes_less a b then Ordering.lt else if bytes_less b a then Ordering.gt else Ordering.eq)
  compare_values a b = err (type_of a, type_of b)

  -- ResolveVariable; `none` is its UnknownVariableError.
  unfoldable pub resolve_variable : DeviceContext → Bytes → Option Val
  resolve_variable dc name =
      let key = to_lower name in
      if key == codes "type"
      then some (string_value (to_lower dc.disk.type))
      else if key == codes "vendor"
      then some (string_value (to_lower (extract_vendor dc.disk.model)))
      else if key == codes "model"
      then some (string_value (to_lower dc.disk.model))
      else if key == codes "size"
      then some (number_value (F.of_nat dc.disk.size))
      else if key == codes "devnode"
      then some (string_value dc.dev_node)
      else if key == codes "host"
      then some (string_value dc.hostname)
      else none
