-- ===== src/Dsl/Match/Sound.antt =====
-- Validate of microceph/dsl/dsl.go against the evaluator, microceph/dsl/eval.go.
use microceph.Prelude.{none, ◌≡◌, refl, ltb, length}
use microceph.Dsl.Text.{bytes_eq}
use microceph.Dsl.Token.{Position}
use microceph.Dsl.Library.{Library}
use microceph.Dsl.Ast.{
  Expression, Arguments, string_literal, number_literal, bool_literal, variable, function_call, nil,
  cons, position_of,
}
use microceph.Dsl.Device.{DeviceContext}
use microceph.Dsl.Value.{Val, truth, text_of, values_equal, resolve_variable}
use microceph.Dsl.Eval.{
  Comparison, function_named, eval, eval_and, eval_or, eval_not, eval_in, eval_member, eval_re,
  eval_comparison, max_regex_pattern_length,
}
use microceph.Dsl.Match.{validate, validate_args}
use microceph.Dsl.Match.Known.{
  is_known_function_lem, NamesKnown, known_variable, bind-Known, if-Known, compare_by-Known,
  matches-Known, variable-Known, validated-cons, validated-call, validated-variable, call-Known,
}

module _ (F : Library) (dc : DeviceContext) where
  mutual
    unfolding eval

    expression-Known : (e : Expression F.Number) → validate e ≡ none → NamesKnown F dc (eval F dc e)
    expression-Known (string_literal _ s _) h = tt
    expression-Known (number_literal _ n _ _) h = tt
    expression-Known (bool_literal _ b) h = tt
    expression-Known (variable pos name) h =
        variable-Known F dc pos name (resolve_variable F dc name) refl
          (known_variable F dc name (validated-variable F dc pos name h))
    expression-Known (function_call pos name args) h =
        let (known, valid) = validated-call F dc pos name args h in
        call-Known F dc pos name args (function_named name) refl (is_known_function_lem name known)
          (and-Known args valid) (or-Known args valid) (not-Known pos args valid)
          (in-Known pos args valid) (re-Known pos args valid)
          (λ op. comparison-Known op pos args valid)

    and-Known :
        (args : Arguments F.Number)
        → validate_args args ≡ none
        → NamesKnown F dc (eval_and F dc args)
    and-Known nil h = tt
    and-Known (cons e args) h =
        let (he, hs) = validated-cons F dc e args h in
        let rest = and-Known args hs in
        bind-Known F dc (eval F dc e) _ (expression-Known e he)
          (λ v. if-Known F dc (truth F v) _ _ rest tt)

    or-Known :
        (args : Arguments F.Number)
        → validate_args args ≡ none
        → NamesKnown F dc (eval_or F dc args)
    or-Known nil h = tt
    or-Known (cons e args) h =
        let (he, hs) = validated-cons F dc e args h in
        let rest = or-Known args hs in
        bind-Known F dc (eval F dc e) _ (expression-Known e he)
          (λ v. if-Known F dc (truth F v) _ _ tt rest)

    not-Known :
        (pos : Position) (args : Arguments F.Number)
        → validate_args args ≡ none
        → NamesKnown F dc (eval_not F dc pos args)
    not-Known pos nil h = tt
    not-Known pos (cons e nil) h =
        bind-Known F dc (eval F dc e) _ (expression-Known e (validated-cons F dc e nil h).0)
          (λ v. tt)
    not-Known pos (cons e (cons _ _)) h = tt

    in-Known :
        (pos : Position) (args : Arguments F.Number)
        → validate_args args ≡ none
        → NamesKnown F dc (eval_in F dc pos args)
    in-Known pos nil h = tt
    in-Known pos (cons e nil) h = tt
    in-Known pos (cons e (cons c args)) h =
        let (he, hs) = validated-cons F dc e (cons c args) h in
        let rest : (v : Val F) → NamesKnown F dc (eval_member F dc v (cons c args)) =
          λ v. member-Known v (cons c args) hs in
        bind-Known F dc (eval F dc e) _ (expression-Known e he) rest

    member-Known :
        (needle : Val F) (args : Arguments F.Number)
        → validate_args args ≡ none
        → NamesKnown F dc (eval_member F dc needle args)
    member-Known needle nil h = tt
    member-Known needle (cons e args) h =
        let (he, hs) = validated-cons F dc e args h in
        let rest = member-Known needle args hs in
        bind-Known F dc (eval F dc e) _ (expression-Known e he)
          (λ v. if-Known F dc (values_equal F needle v) _ _ tt rest)

    re-Known :
        (pos : Position) (args : Arguments F.Number)
        → validate_args args ≡ none
        → NamesKnown F dc (eval_re F dc pos args)
    re-Known pos nil h = tt
    re-Known pos (cons p nil) h = tt
    re-Known pos (cons p (cons e nil)) h =
        let (hp, hs) = validated-cons F dc p (cons e nil) h in
        let he = (validated-cons F dc e nil hs).0 in
        let value = expression-Known e he in
        bind-Known F dc (eval F dc p) _ (expression-Known p hp) (λ v.
          if-Known F dc (ltb max_regex_pattern_length (length (text_of F v))) _ _ tt (
            bind-Known F dc (eval F dc e) _ value
              (λ x. matches-Known F dc (position_of p) (text_of F v) x)))
    re-Known pos (cons p (cons e (cons _ _))) h = tt

    comparison-Known :
        (op : Comparison) (pos : Position) (args : Arguments F.Number)
        → validate_args args ≡ none
        → NamesKnown F dc (eval_comparison F dc op pos args)
    comparison-Known op pos nil h = tt
    comparison-Known op pos (cons a nil) h = tt
    comparison-Known op pos (cons a (cons b nil)) h =
        let (ha, hs) = validated-cons F dc a (cons b nil) h in
        let hb = expression-Known b (validated-cons F dc b nil hs).0 in
        bind-Known F dc (eval F dc a) _ (expression-Known a ha)
          (λ x. bind-Known F dc (eval F dc b) _ hb (λ y. compare_by-Known F dc op pos x y))
    comparison-Known op pos (cons a (cons b (cons _ _))) h = tt

  -- An expression that Validate accepts evaluates, on any device, to a value or to an error other
  -- than an unknown function or variable.
  pub validate_sound : (e : Expression F.Number) → validate e ≡ none → NamesKnown F dc (eval F dc e)
  validate_sound e h = expression-Known e h
