-- ===== src/Dsl/Match/Known.antt =====
-- What the parts of the evaluator can fail with, by part: microceph/dsl/eval.go, against the names that
-- microceph/dsl/dsl.go knows.
use microceph.Prelude.{
  ◌++◌, Bool, true, false, Option, none, some, ◌≡◌, refl, ◌≢◌, sym, subst, inl, inr, ◌==◌,
  if◌then◌else◌, Option-cases, ok, err, ◌>>=◌, arith,
}
use microceph.Dsl.Text.{Bytes, codes, bytes_eq, lower, same_bytes}
use microceph.Dsl.Token.{Position}
use microceph.Dsl.Library.{Library}
use microceph.Dsl.Ast.{Expression, Arguments, variable, function_call, cons}
use microceph.Dsl.Device.{DeviceContext}
use microceph.Dsl.Value.{Val, bool_value, text_of, compare_values, resolve_variable}
use microceph.Dsl.Eval.{
  Comparison, eq, ne, gt, ge, lt, le, Function, conjunction, disjunction, negation, membership,
  regex, comparison, eval_error, incomparable, invalid_pattern, holds, unknown_function,
  unknown_variable, EvalFailure, function_named, Outcome, eval, eval_and, eval_or, eval_not,
  eval_in, eval_re, eval_comparison, compare_by, eval_variable, ordered, matches,
}
use microceph.Dsl.Match.{is_one_of, is_known_function, is_known_variable, validate, validate_args}

-- The failure is not about a name.
abbrev pub IsNamed : EvalFailure → Type 0
IsNamed (eval_error _ _) = Unit
IsNamed (unknown_function _ _) = ⊥
IsNamed (unknown_variable _ _) = ⊥

-- A name is accepted exactly where the evaluator has a function for it.
pub is_known_function_lem :
    (name : Bytes) → is_known_function name ≡ true → function_named name ≢ none
unfolding is_known_function is_one_of function_named
is_known_function_lem name h = ground arith

module _ (F : Library) (dc : DeviceContext) where
  resolves_type : resolve_variable F dc (codes "type") ≢ none
  unfolding resolve_variable lower same_bytes
  resolves_type e = cc

  resolves_vendor : resolve_variable F dc (codes "vendor") ≢ none
  unfolding resolve_variable lower same_bytes
  resolves_vendor e = cc

  resolves_model : resolve_variable F dc (codes "model") ≢ none
  unfolding resolve_variable lower same_bytes
  resolves_model e = cc

  resolves_size : resolve_variable F dc (codes "size") ≢ none
  unfolding resolve_variable lower same_bytes
  resolves_size e = cc

  resolves_devnode : resolve_variable F dc (codes "devnode") ≢ none
  unfolding resolve_variable lower same_bytes
  resolves_devnode e = cc

  resolves_host : resolve_variable F dc (codes "host") ≢ none
  unfolding resolve_variable lower same_bytes
  resolves_host e = cc

  module _ (name : Bytes) where
    same_variable :
        (w : Bytes)
        → resolve_variable F dc w ≢ none
        → (name == w) ≡ true
        → resolve_variable F dc name ≢ none
    same_variable w h e =
        let same : name ≡ w = (bytes_eq.beq_iff name w).0 e in
        subst (λ v. resolve_variable F dc v ≢ none) (sym same) h

    pub known_variable : is_known_variable name ≡ true → resolve_variable F dc name ≢ none
    unfolding is_known_variable is_one_of
    known_variable h = ground (
      arith,
      same_variable (codes "type") resolves_type,
      same_variable (codes "vendor") resolves_vendor,
      same_variable (codes "model") resolves_model,
      same_variable (codes "size") resolves_size,
      same_variable (codes "devnode") resolves_devnode,
      same_variable (codes "host") resolves_host,
    )

  abbrev pub NamesKnown : Outcome F dc → Type 0
  NamesKnown (ok _) = Unit
  NamesKnown (err f) = IsNamed f

  pub bind-Known :
      (r : Outcome F dc) (k : Val F → Outcome F dc)
      → NamesKnown r
      → ((v : Val F) → NamesKnown (k v))
      → NamesKnown (r >>= k)
  bind-Known (ok v) k h hk = hk v
  bind-Known (err f) k h hk = h

  pub if-Known :
      (b : Bool) (x y : Outcome F dc)
      → NamesKnown x
      → NamesKnown y
      → NamesKnown (if b then x else y)
  if-Known true x y h k = h
  if-Known false x y h k = k

  pub ordered-Known :
      (op : Comparison) (pos : Position) (a b : Val F) → NamesKnown (ordered F dc op pos a b)
  unfolding ordered
  ordered-Known op pos a b =
      elim (compare_values F a b)
        as (λ r. NamesKnown (elim r [
          | err types ↦ err (eval_error pos (incomparable types.0 types.1))
          | ok o ↦ ok (bool_value (holds op o))
        ])) [ err types ↦ tt | ok o ↦ tt ]

  pub compare_by-Known :
      (op : Comparison) (pos : Position) (a b : Val F) → NamesKnown (compare_by F dc op pos a b)
  unfolding compare_by
  compare_by-Known eq pos a b = tt
  compare_by-Known ne pos a b = tt
  compare_by-Known gt pos a b = ordered-Known gt pos a b
  compare_by-Known ge pos a b = ordered-Known ge pos a b
  compare_by-Known lt pos a b = ordered-Known lt pos a b
  compare_by-Known le pos a b = ordered-Known le pos a b

  pub matches-Known :
      (pos : Position) (pattern : Bytes) (v : Val F) → NamesKnown (matches F dc pos pattern v)
  unfolding matches
  matches-Known pos pattern v =
      elim (F.compile (codes "(?i)" ++ pattern))
        as (λ r. NamesKnown (elim r [
          | err e ↦ err (eval_error pos (invalid_pattern e))
          | ok re ↦ ok (bool_value (F.match_string re (text_of F v)))
        ])) [ err e ↦ tt | ok re ↦ tt ]

  pub variable-Known :
      (pos : Position) (name : Bytes) (o : Option (Val F))
      → resolve_variable F dc name ≡ o
      → o ≢ none
      → NamesKnown (eval_variable F dc pos name)
  unfolding eval_variable
  variable-Known pos name none e h = absurd (h refl)
  variable-Known pos name (some v) e h = rw (e, NamesKnown) tt

  pub validated-cons :
      (e : Expression F.Number) (args : Arguments F.Number)
      → validate_args (cons e args) ≡ none
      → (validate e ≡ none) × (validate_args args ≡ none)
  unfolding validate
  validated-cons e args h = elim (Option-cases (validate e)) [
    | inl k ↦ (k, ground arith)
    | inr k ↦ absurd (ground arith)
  ]

  pub validated-call :
      (pos : Position) (name : Bytes) (args : Arguments F.Number)
      → validate (function_call pos name args) ≡ none
      → (is_known_function name ≡ true) × (validate_args args ≡ none)
  unfolding validate
  validated-call pos name args h = ground arith

  pub validated-variable :
      (pos : Position) (name : Bytes)
      → validate {N = F.Number} (variable pos name) ≡ none
      → is_known_variable name ≡ true
  unfolding validate
  validated-variable pos name h = ground arith

  -- What the arms of evalFunction give, by the function that the name stands for.
  pub call-Known :
      (pos : Position) (name : Bytes) (args : Arguments F.Number) (o : Option Function)
      → function_named name ≡ o
      → o ≢ none
      → NamesKnown (eval_and F dc args)
      → NamesKnown (eval_or F dc args)
      → NamesKnown (eval_not F dc pos args)
      → NamesKnown (eval_in F dc pos args)
      → NamesKnown (eval_re F dc pos args)
      → ((op : Comparison) → NamesKnown (eval_comparison F dc op pos args))
      → NamesKnown (eval F dc (function_call pos name args))
  unfolding eval
  call-Known pos name args none e h all any neg member matched compared = absurd (h refl)
  call-Known pos name args (some conjunction) e h all any neg member matched compared =
      rw (e, NamesKnown) all
  call-Known pos name args (some disjunction) e h all any neg member matched compared =
      rw (e, NamesKnown) any
  call-Known pos name args (some negation) e h all any neg member matched compared =
      rw (e, NamesKnown) neg
  call-Known pos name args (some membership) e h all any neg member matched compared =
      rw (e, NamesKnown) member
  call-Known pos name args (some regex) e h all any neg member matched compared =
      rw (e, NamesKnown) matched
  call-Known pos name args (some (comparison op)) e h all any neg member matched compared =
      rw (e, NamesKnown) (compared op)
