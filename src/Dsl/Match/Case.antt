-- ===== src/Dsl/Match/Case.antt =====
-- The case of a variable's name: isKnownVariable of microceph/dsl/dsl.go against ResolveVariable of
-- microceph/dsl/vars.go.
use microceph.Prelude.{
  ◌++◌, true, some, ◌≡◌, refl, ◌≢◌, sym, subst, ◌==◌, inl, inr, Bool-cases, ok, arith,
}
use microceph.Dsl.Text.{Bytes, codes, bytes_eq, to_lower, lower}
use microceph.Dsl.Token.{Position}
use microceph.Dsl.Library.{Library}
use microceph.Dsl.Ast.{variable}
use microceph.Dsl.Device.{DeviceContext}
use microceph.Dsl.Value.{Val}
use microceph.Dsl.Eval.{unknown_variable, eval}
use microceph.Dsl.Match.{is_one_of, is_known_variable, validate}

same_lower : (name w : Bytes) → to_lower w ≡ w → (name == w) ≡ true → to_lower name ≡ name
same_lower name w h e =
    let same : name ≡ w = (bytes_eq.beq_iff name w).0 e in subst (λ v. to_lower v ≡ v) (sym same) h

known_lower : (name : Bytes) → is_known_variable name ≡ true → to_lower name ≡ name
unfolding is_known_variable is_one_of lower
known_lower name h = ground (
  arith,
  same_lower name (codes "type") refl,
  same_lower name (codes "vendor") refl,
  same_lower name (codes "model") refl,
  same_lower name (codes "size") refl,
  same_lower name (codes "devnode") refl,
  same_lower name (codes "host") refl,
)

module _ (F : Library) (dc : DeviceContext) where
  -- A variable that the evaluator resolves, but whose name is not in lower case, is refused by
  -- Validate as unknown.
  pub validate-upper_case :
      (pos : Position) (name : Bytes) (v : Val F)
      → eval F dc (variable pos name) ≡ ok v
      → to_lower name ≢ name
      → validate {N = F.Number} (variable pos name)
        ≡ some (unknown_variable pos (codes "@" ++ name))
  unfolding validate
  validate-upper_case pos name v h upper = elim (Bool-cases (is_known_variable name)) [
    | inl k ↦ absurd (upper (known_lower name k))
    | inr k ↦ rw k refl
  ]
