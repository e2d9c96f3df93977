-- ===== src/Dsl/Match.antt =====
-- Validation and matching: microceph/dsl/dsl.go.
pub mod Known
pub mod Sound
pub mod Devices
pub mod Case
use microceph.Prelude.{
  ◌∷◌, [], ◌++◌, List, Bool, true, false, ◌||◌, Option, none, some, ◌==◌, if◌then◌else◌, Result, ok,
  err, ◌>>=◌,
}
use microceph.Dsl.Text.{Bytes, codes, bytes_eq, to_lower}
use microceph.Dsl.Library.{Library}
use microceph.Dsl.Ast.{
  Expression, Arguments, string_literal, number_literal, bool_literal, variable, function_call, nil,
  cons,
}
use microceph.Dsl.Device.{Disk, new_device_context}
use microceph.Dsl.Value.{truth}
use microceph.Dsl.Eval.{EvalFailure, unknown_function, unknown_variable, eval}

unfoldable pub is_one_of : Bytes → List Bytes → Bool
is_one_of name [] = false
is_one_of name (w ∷ ws) = name == w || is_one_of name ws

-- KnownFunctions, and the switch of isKnownFunction.
abbrev pub known_functions : List Bytes
known_functions =
    codes "and"
    ∷ codes "or"
    ∷ codes "not"
    ∷ codes "in"
    ∷ codes "re"
    ∷ codes "eq"
    ∷ codes "ne"
    ∷ codes "gt"
    ∷ codes "ge"
    ∷ codes "lt"
    ∷ codes "le"
    ∷ []

-- KnownVariables, and the switch of isKnownVariable.
abbrev pub known_variables : List Bytes
known_variables =
    codes "type"
    ∷ codes "vendor"
    ∷ codes "model"
    ∷ codes "size"
    ∷ codes "devnode"
    ∷ codes "host"
    ∷ []

unfoldable pub is_known_function : Bytes → Bool
unfolding is_one_of
is_known_function name = is_one_of (to_lower name) known_functions

unfoldable pub is_known_variable : Bytes → Bool
unfolding is_one_of
is_known_variable name = is_one_of name known_variables

-- Validate: the first unknown name, in the order of the tree.
unfoldable mutual
  unfolding is_known_function is_known_variable

  pub validate : {N : Type 0} → Expression N → Option EvalFailure
  validate (function_call pos name args) =
      let rest = validate_args args in
      if is_known_function name then rest else some (unknown_function pos name)
  validate (variable pos name) =
      if is_known_variable name then none else some (unknown_variable pos (codes "@" ++ name))
  validate (string_literal _ _ _) = none
  validate (number_literal _ _ _ _) = none
  validate (bool_literal _ _) = none

  pub validate_args : {N : Type 0} → Arguments N → Option EvalFailure
  validate_args nil = none
  validate_args (cons e args) =
      let rest = validate_args args in elim (validate e) [ none ↦ rest | some x ↦ some x ]

module _ (F : Library) where
  -- MatchDevice.
  unfoldable pub match_device : Expression F.Number → Bytes → Disk → Result EvalFailure Bool
  match_device e hostname disk = do
    result ← eval F (new_device_context disk hostname) e
    ok (truth F result)

  -- MatchDevices.
  unfoldable pub match_devices :
      Expression F.Number → Bytes → List Disk → Result EvalFailure (List Disk)
  unfolding match_device
  match_devices e hostname [] = ok []
  match_devices e hostname (disk ∷ disks) = do
    matched ← match_device e hostname disk
    rest ← match_devices e hostname disks
    ok (if matched then disk ∷ rest else rest)
