-- ===== src/Dsl/Eval/Opposite.antt =====
-- The comparisons that are each other's negation: evalComparison of microceph/dsl/eval.go.
use Prim.Native.Nat.{Ordering}
use microceph.Prelude.{
  Bool, true, false, not, some, ◌≡◌, refl, sym, ◌∙◌, ap, Result, ok, err, ◌>>=◌,
}
use microceph.Dsl.Text.{Bytes, bytes_eq}
use microceph.Dsl.Token.{Position}
use microceph.Dsl.Library.{Library}
use microceph.Dsl.Ast.{Expression, function_call, nil, cons}
use microceph.Dsl.Device.{DeviceContext}
use microceph.Dsl.Value.{ValueType, bool_value, Val, truth, values_equal, compare_values}
use microceph.Dsl.Eval.{
  Comparison, eq, ne, gt, ge, lt, le, negation, comparison, function_named, Outcome, eval,
  compare_by, holds,
}
use microceph.Dsl.Eval.Calls.{
  negated_outcome, eval-negation, eval-comparison, eval_comparison-two, ordered_by, eval_not-one,
}

-- The operators that are each other's negation.
abbrev pub opposite : Comparison → Comparison
opposite eq = ne
opposite ne = eq
opposite gt = le
opposite le = gt
opposite lt = ge
opposite ge = lt

not-not : (b : Bool) → b ≡ not (not b)
not-not true = refl
not-not false = refl

holds-gt : (o : Ordering) → holds le o ≡ not (holds gt o)
unfolding holds
holds-gt Ordering.lt = refl
holds-gt Ordering.eq = refl
holds-gt Ordering.gt = refl

holds-le : (o : Ordering) → holds gt o ≡ not (holds le o)
unfolding holds
holds-le Ordering.lt = refl
holds-le Ordering.eq = refl
holds-le Ordering.gt = refl

holds-lt : (o : Ordering) → holds ge o ≡ not (holds lt o)
unfolding holds
holds-lt Ordering.lt = refl
holds-lt Ordering.eq = refl
holds-lt Ordering.gt = refl

holds-ge : (o : Ordering) → holds lt o ≡ not (holds ge o)
unfolding holds
holds-ge Ordering.lt = refl
holds-ge Ordering.eq = refl
holds-ge Ordering.gt = refl

module _ (F : Library) (dc : DeviceContext) where
  ordered-opposite :
      (op : Comparison) (pos : Position) (r : Result (ValueType × ValueType) Ordering)
      → ((o : Ordering) → holds (opposite op) o ≡ not (holds op o))
      → ordered_by F dc (opposite op) pos r ≡ negated_outcome F dc (ordered_by F dc op pos r)
  unfolding truth ordered_by
  ordered-opposite op pos (err types) h = refl
  ordered-opposite op pos (ok o) h = rw (h o)

  compare_by-opposite :
      (op : Comparison) (pos : Position) (a b : Val F)
      → compare_by F dc (opposite op) pos a b ≡ negated_outcome F dc (compare_by F dc op pos a b)
  unfolding compare_by truth ordered_by
  compare_by-opposite eq pos a b = refl
  compare_by-opposite ne pos a b = ap (λ b. ok (bool_value b)) (not-not (values_equal F a b))
  compare_by-opposite gt pos a b = ordered-opposite gt pos (compare_values F a b) holds-gt
  compare_by-opposite le pos a b = ordered-opposite le pos (compare_values F a b) holds-le
  compare_by-opposite lt pos a b = ordered-opposite lt pos (compare_values F a b) holds-lt
  compare_by-opposite ge pos a b = ordered-opposite ge pos (compare_values F a b) holds-ge

  compared :
      (op : Comparison) (pos : Position) (ra rb : Outcome F dc)
      → (ra >>= λ a. rb >>= λ b. compare_by F dc (opposite op) pos a b)
        ≡ negated_outcome F dc (ra >>= λ a. rb >>= λ b. compare_by F dc op pos a b)
  compared op pos (err e) rb = refl
  compared op pos (ok a) (err e) = refl
  compared op pos (ok a) (ok b) = compare_by-opposite op pos a b

  -- On two arguments, where the names stand for the functions, the opposite of a comparison is `not`
  -- of that comparison at one position: the same result or the same error.
  pub comparison-opposite :
      (op : Comparison) (pos : Position) (name opposite_name not_name : Bytes)
      (a b : Expression F.Number)
      → function_named name ≡ some (comparison op)
      → function_named opposite_name ≡ some (comparison (opposite op))
      → function_named not_name ≡ some negation
      → eval F dc (function_call pos opposite_name (cons a (cons b nil)))
        ≡ eval F dc
            (function_call pos not_name (cons (function_call pos name (cons a (cons b nil))) nil))
  comparison-opposite op pos name opposite_name not_name a b is_op is_opposite is_not =
      eval-comparison F dc pos opposite_name (cons a (cons b nil)) (opposite op) is_opposite
      ∙ eval_comparison-two F dc (opposite op) pos a b
      ∙ compared op pos (eval F dc a) (eval F dc b)
      ∙ ap (negated_outcome F dc) (sym (eval_comparison-two F dc op pos a b))
      ∙ ap (negated_outcome F dc)
          (sym (eval-comparison F dc pos name (cons a (cons b nil)) op is_op))
      ∙ sym (eval_not-one F dc pos (function_call pos name (cons a (cons b nil))))
      ∙ sym (
          eval-negation F dc pos not_name (cons (function_call pos name (cons a (cons b nil))) nil)
            is_not)
