-- ===== src/Dsl/Eval.antt =====
-- The evaluator: microceph/dsl/eval.go.
pub mod Calls
pub mod Laws
pub mod Opposite
use Prim.Native.Nat.{Ordering}
use microceph.Prelude.{
  ℕ, suc, ◌∷◌, [], ◌++◌, Bool, true, false, not, Option, none, some, ltb, ◌==◌, if◌then◌else◌,
  Result, ok, err, ◌>>=◌, length,
}
use microceph.Dsl.Text.{Bytes, codes, bytes_eq, to_lower}
use microceph.Dsl.Token.{Position}
use microceph.Dsl.Library.{Library}
use microceph.Dsl.Ast.{
  Expression, Arguments, string_literal, number_literal, bool_literal, variable, function_call, nil,
  cons, position_of, count_args,
}
use microceph.Dsl.Device.{DeviceContext}
use microceph.Dsl.Value.{
  Value, ValueType, bool_value, string_value, number_value, Val, truth, text_of, values_equal,
  compare_values, resolve_variable,
}

pub data Comparison : Type 0 where
  eq ne gt ge lt le : Comparison

pub data Function : Type 0 where
  conjunction disjunction negation membership regex : Function
  comparison : Comparison → Function

-- The switch of evalFunction on the lower-case name.
unfoldable pub function_named : Bytes → Option Function
function_named name =
    let key = to_lower name in
    if key == codes "and"
    then some conjunction
    else if key == codes "or"
    then some disjunction
    else if key == codes "not"
    then some negation
    else if key == codes "in"
    then some membership
    else if key == codes "re"
    then some regex
    else if key == codes "eq"
    then some (comparison eq)
    else if key == codes "ne"
    then some (comparison ne)
    else if key == codes "gt"
    then some (comparison gt)
    else if key == codes "ge"
    then some (comparison ge)
    else if key == codes "lt"
    then some (comparison lt)
    else if key == codes "le"
    then some (comparison le)
    else none

-- One constructor for each message of an EvalError, with the numbers and texts put into it.
pub data EvalMessage : Type 0 where
  not_arity in_arity re_arity : ℕ → EvalMessage
  comparison_arity : Comparison → ℕ → EvalMessage
  pattern_too_long : EvalMessage
  invalid_pattern : Bytes → EvalMessage
  incomparable : ValueType → ValueType → EvalMessage

pub data EvalFailure : Type 0 where
  eval_error : Position → EvalMessage → EvalFailure
  unknown_function unknown_variable : Position → Bytes → EvalFailure

abbrev pub max_regex_pattern_length : ℕ
max_regex_pattern_length = 1000

-- The operator's reading of -1, 0 and 1.
unfoldable pub holds : Comparison → Ordering → Bool
holds gt Ordering.gt = true
holds ge Ordering.gt = true
holds ge Ordering.eq = true
holds lt Ordering.lt = true
holds le Ordering.lt = true
holds le Ordering.eq = true
holds _ _ = false

module _ (F : Library) (dc : DeviceContext) where
  abbrev pub Outcome : Type 0
  Outcome = Result EvalFailure (Val F)

  abbrev yields : Bool → Outcome
  yields b = ok (bool_value b)

  unfoldable pub ordered : Comparison → Position → Val F → Val F → Outcome
  ordered op pos a b = elim (compare_values F a b) [
    | err types ↦ err (eval_error pos (incomparable types.0 types.1))
    | ok o ↦ yields (holds op o)
  ]

  -- evalComparison on its two values.
  unfoldable pub compare_by : Comparison → Position → Val F → Val F → Outcome
  unfolding ordered
  compare_by eq pos a b = yields (values_equal F a b)
  compare_by ne pos a b = yields (not (values_equal F a b))
  compare_by gt pos a b = ordered gt pos a b
  compare_by ge pos a b = ordered ge pos a b
  compare_by lt pos a b = ordered lt pos a b
  compare_by le pos a b = ordered le pos a b

  -- The end of evalRe: the pattern is compiled without regard to case.
  unfoldable pub matches : Position → Bytes → Val F → Outcome
  matches pos pattern value = elim (F.compile (codes "(?i)" ++ pattern)) [
    | err e ↦ err (eval_error pos (invalid_pattern e))
    | ok re ↦ yields (F.match_string re (text_of F value))
  ]

  unfoldable pub eval_variable : Position → Bytes → Outcome
  eval_variable pos name = elim (resolve_variable F dc name) [
    | none ↦ err (unknown_variable pos (codes "@" ++ name))
    | some v ↦ ok v
  ]

  unfoldable mutual
    unfolding eval_variable compare_by matches

    pub eval : Expression F.Number → Outcome
    eval (string_literal _ s _) = ok (string_value s)
    eval (number_literal _ n _ _) = ok (number_value n)
    eval (bool_literal _ b) = yields b
    eval (variable pos name) = eval_variable pos name
    eval (function_call pos name args) =
        let and_all = eval_and args in
        let or_all = eval_or args in
        let negated = eval_not pos args in
        let member = eval_in pos args in
        let matched = eval_re pos args in
        elim (function_named name) [
          | none ↦ err (unknown_function pos name)
          | some f ↦ elim f [
            | conjunction ↦ and_all
            | disjunction ↦ or_all
            | negation ↦ negated
            | membership ↦ member
            | regex ↦ matched
            | comparison op ↦ eval_comparison op pos args
          ]
        ]

    pub eval_and : Arguments F.Number → Outcome
    eval_and nil = yields true
    eval_and (cons e args) = do
      v ← eval e
      let rest = eval_and args
      if truth F v then rest else yields false

    pub eval_or : Arguments F.Number → Outcome
    eval_or nil = yields false
    eval_or (cons e args) = do
      v ← eval e
      let rest = eval_or args
      if truth F v then yields true else rest

    pub eval_not : Position → Arguments F.Number → Outcome
    eval_not pos (cons e nil) = do v ← eval e; yields (not (truth F v))
    eval_not pos args = err (eval_error pos (not_arity (count_args args)))

    pub eval_in : Position → Arguments F.Number → Outcome
    eval_in pos (cons e (cons c args)) = do needle ← eval e; eval_member needle (cons c args)
    eval_in pos args = err (eval_error pos (in_arity (count_args args)))

    -- The loop of evalIn.
    pub eval_member : Val F → Arguments F.Number → Outcome
    eval_member needle nil = yields false
    eval_member needle (cons e args) = do
      candidate ← eval e
      let rest = eval_member needle args
      if values_equal F needle candidate then yields true else rest

    pub eval_re : Position → Arguments F.Number → Outcome
    eval_re pos (cons p (cons e nil)) = do
      pattern ← eval p
      let matched = (do value ← eval e; matches (position_of p) (text_of F pattern) value)
      if ltb max_regex_pattern_length (length (text_of F pattern))
          then err (eval_error (position_of p) pattern_too_long)
          else matched
    eval_re pos args = err (eval_error pos (re_arity (count_args args)))

    pub eval_comparison : Comparison → Position → Arguments F.Number → Outcome
    eval_comparison op pos (cons a (cons b nil)) = do
      left ← eval a
      right ← eval b
      compare_by op pos left right
    eval_comparison op pos args = err (eval_error pos (comparison_arity op (count_args args)))
