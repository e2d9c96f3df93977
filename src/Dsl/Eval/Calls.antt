-- ===== src/Dsl/Eval/Calls.antt =====
-- A call is decided by what its name stands for: evalFunction of microceph/dsl/eval.go.
use Prim.Native.Nat.{Ordering}
use microceph.Prelude.{not, Option, none, some, ◌≡◌, refl, Result, ok, err, ◌>>=◌}
use microceph.Dsl.Text.{Bytes, bytes_eq}
use microceph.Dsl.Token.{Position}
use microceph.Dsl.Library.{Library}
use microceph.Dsl.Ast.{Expression, Arguments, function_call, nil, cons}
use microceph.Dsl.Device.{DeviceContext}
use microceph.Dsl.Value.{ValueType, bool_value, truth}
use microceph.Dsl.Eval.{
  Comparison, Function, conjunction, disjunction, negation, membership, regex, comparison,
  unknown_function, eval_error, incomparable, eval_re, function_named, Outcome, eval, eval_and,
  eval_or, eval_not, eval_in, eval_comparison, compare_by, holds,
}

module _ (F : Library) (dc : DeviceContext) where
  abbrev pub negated_outcome : Outcome F dc → Outcome F dc
  negated_outcome r = r >>= λ v. ok (bool_value (not (truth F v)))

  pub by_function : Option Function → Position → Bytes → Arguments F.Number → Outcome F dc
  by_function o pos name args = elim o [
    | none ↦ err (unknown_function pos name)
    | some f ↦ elim f [
      | conjunction ↦ eval_and F dc args
      | disjunction ↦ eval_or F dc args
      | negation ↦ eval_not F dc pos args
      | membership ↦ eval_in F dc pos args
      | regex ↦ eval_re F dc pos args
      | comparison op ↦ eval_comparison F dc op pos args
    ]
  ]

  pub eval-function_call :
      (pos : Position) (name : Bytes) (args : Arguments F.Number)
      → eval F dc (function_call pos name args) ≡ by_function (function_named name) pos name args
  unfolding eval by_function
  eval-function_call pos name args = refl

  -- A call is decided by what its name, in any case, stands for.
  module _ (pos : Position) (name : Bytes) (args : Arguments F.Number) where
    pub eval-conjunction :
        function_named name ≡ some conjunction
        → eval F dc (function_call pos name args) ≡ eval_and F dc args
    unfolding by_function
    eval-conjunction h = rw (eval-function_call pos name args, h)

    pub eval-disjunction :
        function_named name ≡ some disjunction
        → eval F dc (function_call pos name args) ≡ eval_or F dc args
    unfolding by_function
    eval-disjunction h = rw (eval-function_call pos name args, h)

    pub eval-negation :
        function_named name ≡ some negation
        → eval F dc (function_call pos name args) ≡ eval_not F dc pos args
    unfolding by_function
    eval-negation h = rw (eval-function_call pos name args, h)

    pub eval-membership :
        function_named name ≡ some membership
        → eval F dc (function_call pos name args) ≡ eval_in F dc pos args
    unfolding by_function
    eval-membership h = rw (eval-function_call pos name args, h)

    pub eval-comparison :
        (op : Comparison)
        → function_named name ≡ some (comparison op)
        → eval F dc (function_call pos name args) ≡ eval_comparison F dc op pos args
    unfolding by_function
    eval-comparison op h = rw (eval-function_call pos name args, h)

  pub eval_comparison-two :
      (op : Comparison) (pos : Position) (a b : Expression F.Number)
      → eval_comparison F dc op pos (cons a (cons b nil))
        ≡ (eval F dc a >>= λ x. eval F dc b >>= λ y. compare_by F dc op pos x y)
  unfolding eval
  eval_comparison-two op pos a b = refl

  unfoldable pub ordered_by :
      Comparison → Position → Result (ValueType × ValueType) Ordering → Outcome F dc
  ordered_by op pos r = elim r [
    | err types ↦ err (eval_error pos (incomparable types.0 types.1))
    | ok o ↦ ok (bool_value (holds op o))
  ]

  pub eval_not-one :
      (pos : Position) (e : Expression F.Number)
      → eval_not F dc pos (cons e nil) ≡ negated_outcome (eval F dc e)
  unfolding eval
  eval_not-one pos e = refl
