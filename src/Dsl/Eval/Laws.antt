-- ===== src/Dsl/Eval/Laws.antt =====
-- Laws of the functions of the language, errors included: microceph/dsl/eval.go.
use microceph.Prelude.{
  true, false, some, ◌≡◌, refl, sym, ◌∙◌, ap, inl, inr, if◌then◌else◌, ok, err, ◌>>=◌, Bool-cases,
}
use microceph.Dsl.Text.{Bytes, bytes_eq}
use microceph.Dsl.Token.{Position}
use microceph.Dsl.Library.{Library}
use microceph.Dsl.Ast.{Expression, Arguments, function_call, nil, cons}
use microceph.Dsl.Device.{DeviceContext}
use microceph.Dsl.Value.{bool_value, Val, truth, values_equal}
use microceph.Dsl.Eval.{
  eq, conjunction, disjunction, negation, membership, comparison, function_named, Outcome, eval,
  eval_and, eval_or, eval_in, eval_member,
}
use microceph.Dsl.Eval.Calls.{
  negated_outcome, eval-conjunction, eval-disjunction, eval-negation, eval-membership,
  eval-comparison, eval_not-one,
}

-- A call of `name` on each argument alone, at one position.
abbrev pub call_each : {N : Type 0} → Position → Bytes → Arguments N → Arguments N
call_each pos name nil = nil
call_each pos name (cons e args) =
    cons (function_call pos name (cons e nil)) (call_each pos name args)

-- A call of `name` on `x` and each argument.
abbrev pub call_each_with :
    {N : Type 0} → Position → Bytes → Expression N → Arguments N → Arguments N
call_each_with pos name x nil = nil
call_each_with pos name x (cons e args) =
    cons (function_call pos name (cons x (cons e nil))) (call_each_with pos name x args)

module _ (F : Library) (dc : DeviceContext) where
  module _ (pos : Position) (not_name : Bytes)
      (is_not : function_named not_name ≡ some negation) where
    or_step :
        (r : Outcome F dc) (or_rest and_rest : Outcome F dc)
        → or_rest ≡ negated_outcome F dc and_rest
        → (negated_outcome F dc r >>= λ v. if truth F v then ok (bool_value true) else or_rest)
          ≡ negated_outcome F dc (r >>= λ v. if truth F v then and_rest else ok (bool_value false))
    unfolding truth
    or_step (err x) or_rest and_rest h = refl
    or_step (ok v) or_rest and_rest h = elim (Bool-cases (truth F v)) [
      | inl t ↦ rw t h
      | inr f ↦ rw f refl
    ]

    -- The loop of `and` is the negation of the loop of `or` on the negated arguments.
    eval_or-call_each :
        (args : Arguments F.Number)
        → eval_or F dc (call_each pos not_name args) ≡ negated_outcome F dc (eval_and F dc args)
    unfolding eval truth
    eval_or-call_each nil = refl
    eval_or-call_each (cons e args) =
        rw (eval-negation F dc pos not_name (cons e nil) is_not)
          (or_step (eval F dc e) _ _ (eval_or-call_each args))

    -- Where the three names stand for the functions, `or` of negated arguments, all calls at one
    -- position, is `not` of `and`: the same result or the same error.
    pub or_of_nots :
        (and_name or_name : Bytes) (args : Arguments F.Number)
        → function_named and_name ≡ some conjunction
        → function_named or_name ≡ some disjunction
        → eval F dc (function_call pos or_name (call_each pos not_name args))
          ≡ eval F dc (function_call pos not_name (cons (function_call pos and_name args) nil))
    or_of_nots and_name or_name args is_and is_or =
        eval-disjunction F dc pos or_name (call_each pos not_name args) is_or
        ∙ eval_or-call_each args
        ∙ sym (
            eval-negation F dc pos not_name (cons (function_call pos and_name args) nil) is_not
            ∙ eval_not-one F dc pos (function_call pos and_name args)
            ∙ ap (negated_outcome F dc) (eval-conjunction F dc pos and_name args is_and))

  module _ (pos : Position) (eq_name : Bytes)
      (is_eq : function_named eq_name ≡ some (comparison eq)) (x : Expression F.Number) where
    -- `eq(x, e)` once `x` has a value.
    eq_call :
        (needle : Val F) (e : Expression F.Number)
        → eval F dc x ≡ ok needle
        → eval F dc (function_call pos eq_name (cons x (cons e nil)))
          ≡ (eval F dc e >>= λ v. ok (bool_value (values_equal F needle v)))
    eq_call needle e h =
        eval-comparison F dc pos eq_name (cons x (cons e nil)) eq is_eq ∙ (unfold eval in rw h)

    member_step :
        (needle : Val F) (r member_rest or_rest : Outcome F dc)
        → member_rest ≡ or_rest
        → (r >>= λ v. if values_equal F needle v then ok (bool_value true) else member_rest) ≡ (
            (r >>= λ v. ok (bool_value (values_equal F needle v))) >>= λ v.
            if truth F v then ok (bool_value true) else or_rest)
    unfolding truth
    member_step needle (err e) member_rest or_rest h = refl
    member_step needle (ok v) member_rest or_rest h = rw h

    eval_member-or :
        (needle : Val F) (args : Arguments F.Number)
        → eval F dc x ≡ ok needle
        → eval_member F dc needle args ≡ eval_or F dc (call_each_with pos eq_name x args)
    unfolding eval
    eval_member-or needle nil h = refl
    eval_member-or needle (cons e args) h =
        rw (eq_call needle e h)
          (member_step needle (eval F dc e) _ _ (eval_member-or needle args h))

    in_or :
        (r : Outcome F dc) (c : Expression F.Number) (args : Arguments F.Number)
        → eval F dc x ≡ r
        → (r >>= λ needle. eval_member F dc needle (cons c args))
          ≡ eval_or F dc (call_each_with pos eq_name x (cons c args))
    in_or (ok needle) c args h = eval_member-or needle (cons c args) h
    in_or (err e) c args h =
        unfold eval in rw (eval-comparison F dc pos eq_name (cons x (cons c nil)) eq is_eq, h)

    eval_in-two :
        (c : Expression F.Number) (args : Arguments F.Number)
        → eval_in F dc pos (cons x (cons c args))
          ≡ (eval F dc x >>= λ needle. eval_member F dc needle (cons c args))
    unfolding eval
    eval_in-two c args = refl

    -- Where the names stand for the functions, `in` with a candidate or more, all calls at one
    -- position, is `or` over equalities with its first argument: the same result or the same error.
    pub in_as_or :
        (in_name or_name : Bytes) (c : Expression F.Number) (args : Arguments F.Number)
        → function_named in_name ≡ some membership
        → function_named or_name ≡ some disjunction
        → eval F dc (function_call pos in_name (cons x (cons c args)))
          ≡ eval F dc (function_call pos or_name (call_each_with pos eq_name x (cons c args)))
    in_as_or in_name or_name c args is_in is_or =
        eval-membership F dc pos in_name (cons x (cons c args)) is_in
        ∙ eval_in-two c args
        ∙ in_or (eval F dc x) c args refl
        ∙ sym (eval-disjunction F dc pos or_name (call_each_with pos eq_name x (cons c args)) is_or)
