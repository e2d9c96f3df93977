-- ===== src/Dsl/Lexer/Scan.antt =====
-- The scanners as steps over the input: microceph/dsl/lexer.go.
use microceph.Prelude.{
  ℕ, [], ◌∷◌, ◌++◌, Bool, true, false, ◌||◌, ◌≡◌, refl, inl, inr, ◌==◌, nat_eq, if◌then◌else◌,
  arith, Bool-cases, Option-cases, ap,
}
use microceph.Dsl.Text.{Bytes, is_digit, is_letter}
use microceph.Dsl.Token.{Position, Token}
use microceph.Dsl.Lexer.{
  Lexer, advance, advance_while, is_word, skip_sign, skip_fraction, scan_ident_or_keyword,
  scan_number, scan_raw_string, escaped_string_from, scan_escaped_string, scan_token, unescape,
  sees,
}
use microceph.Dsl.Lexer.Invariant.{
  IsWellFormed, Moves, Advances, Moves-refl, Moves-trans, advance-rest, advance-Moves,
  advance-Advances, Advances-Moves, advance_while-Moves, advance_while-Advances,
  advance_while-stops, raw_string_from-Moves,
}

escaped_string_from-Moves :
    (start : Position) (cs built : Bytes) (l : Lexer)
    → l.rest ≡ cs
    → IsWellFormed l
    → Moves l (escaped_string_from start cs built l).0
unfolding escaped_string_from
escaped_string_from-Moves start [] built l e w = Moves-refl w
escaped_string_from-Moves start (c ∷ []) built l e w =
    let one = advance-Moves l w in
    elim (Bool-cases (c == b'"')) [
      | inl t ↦ rw t one
      | inr f ↦ rw f (elim (Bool-cases (c == b'\\')) [
        | inl t ↦ rw t (Moves-refl w)
        | inr g ↦
            rw g (elim (Bool-cases (c == b'\n')) [ inl t ↦ rw t (Moves-refl w) | inr h ↦ rw h one ])
      ])
    ]
escaped_string_from-Moves start (c ∷ d ∷ cs) built l e w =
    let one = advance-Moves l w in
    let two = advance-Moves (advance l) one.well_formed in
    let at_one = advance-rest l c (d ∷ cs) e in
    elim (Bool-cases (c == b'"')) [
      | inl t ↦ rw t one
      | inr f ↦ rw f (elim (Bool-cases (c == b'\\')) [
        | inl t ↦ rw t (elim (Option-cases (unescape d)) [
          | inl bad ↦ rw bad one
          | inr (x, good) ↦ rw good (
              Moves-trans (Moves-trans one two) (
                escaped_string_from-Moves start cs (built ++ x ∷ []) (advance (advance l))
                  (advance-rest (advance l) d cs at_one) two.well_formed))
        ])
        | inr g ↦ rw g (elim (Bool-cases (c == b'\n')) [
          | inl t ↦ rw t (Moves-refl w)
          | inr h ↦ rw h (
              Moves-trans one (
                escaped_string_from-Moves start (d ∷ cs) (built ++ c ∷ []) (advance l) at_one
                  one.well_formed))
        ])
      ])
    ]

module _ (c : ℕ) (cs : Bytes) (l : Lexer) (e : l.rest ≡ c ∷ cs) (w : IsWellFormed l) where
  scan_ident_or_keyword-Advances : is_word c ≡ true → Advances l (scan_ident_or_keyword l).0
  unfolding scan_ident_or_keyword
  scan_ident_or_keyword-Advances t = advance_while-Advances is_word c cs l t e w

  scan_raw_string-Advances : Advances l (scan_raw_string l).0
  unfolding scan_raw_string
  scan_raw_string-Advances =
      let one = advance-Advances l c cs e w in
      Advances-Moves one
        (raw_string_from-Moves _ (advance l).rest [] (advance l) refl one.moves.well_formed)

  scan_escaped_string-Advances : Advances l (scan_escaped_string l).0
  unfolding scan_escaped_string
  scan_escaped_string-Advances =
      let one = advance-Advances l c cs e w in
      Advances-Moves one
        (escaped_string_from-Moves _ (advance l).rest [] (advance l) refl one.moves.well_formed)

skip_sign-Moves : (l : Lexer) → IsWellFormed l → Moves l (skip_sign l)
unfolding skip_sign
skip_sign-Moves l w = elim (Bool-cases (sees (λ c. c == b'-') l.rest)) [
  | inl t ↦ rw t (advance-Moves l w)
  | inr f ↦ rw f (Moves-refl w)
]

skip_fraction-Moves : (l : Lexer) → IsWellFormed l → Moves l (skip_fraction l)
unfolding skip_fraction
skip_fraction-Moves l w = elim (Bool-cases (sees (λ c. c == b'.') l.rest)) [
  | inl t ↦
      let one = advance-Moves l w in
      rw t (
        Moves-trans one
          (advance_while-Moves is_digit (advance l).rest (advance l) refl one.well_formed))
  | inr f ↦ rw f (Moves-refl w)
]

-- Both branches of a test.
pub if_keeps :
    (P : Lexer → Type 0) (b : Bool) (x y : Lexer × Token)
    → (b ≡ true → P x.0)
    → (b ≡ false → P y.0)
    → P (if b then x else y).0
if_keeps P true x y h k = h refl
if_keeps P false x y h k = k refl

sees-cons :
    (test : ℕ → Bool) (c : ℕ) (cs : Bytes) (l : Lexer) → l.rest ≡ c ∷ cs → sees test l.rest ≡ test c
unfolding sees
sees-cons test c cs l e = ap (sees test) e

module _ (c : ℕ) (cs : Bytes) (l : Lexer) (e : l.rest ≡ c ∷ cs) (w : IsWellFormed l) where
  skip_sign-minus : (c == b'-') ≡ true → skip_sign l ≡ advance l
  unfolding skip_sign
  skip_sign-minus t = rw (sees-cons (λ c. c == b'-') c cs l e, t)

  skip_sign-other : (c == b'-') ≡ false → skip_sign l ≡ l
  unfolding skip_sign
  skip_sign-other f = rw (sees-cons (λ c. c == b'-') c cs l e, f)

  skip_fraction-point : (c == b'.') ≡ true → Advances l (skip_fraction l)
  unfolding skip_fraction
  skip_fraction-point t =
      let one = advance-Advances l c cs e w in
      rw (sees-cons (λ c. c == b'.') c cs l e, t)
        (Advances-Moves one
          (advance_while-Moves is_digit (advance l).rest (advance l) refl one.moves.well_formed))

  -- A sign, a digit or a point is read by one of the three parts.
  number_prefix-Advances :
      (is_digit c || c == b'.' || c == b'-') ≡ true
      → let signed = skip_sign l in
        Advances l (skip_fraction (advance_while is_digit signed.rest signed))
  number_prefix-Advances t = elim (Bool-cases (c == b'-')) [
    | inl minus ↦
        let one = advance-Advances l c cs e w in
        let digits =
          advance_while-Moves is_digit (advance l).rest (advance l) refl one.moves.well_formed in
        rw (skip_sign-minus minus)
          (Advances-Moves one (Moves-trans digits (skip_fraction-Moves _ digits.well_formed)))
    | inr plain ↦ rw (skip_sign-other plain) (elim (Bool-cases (is_digit c)) [
      | inl digit ↦
          let digits = advance_while-Advances is_digit c cs l digit e w in
          Advances-Moves digits (skip_fraction-Moves _ digits.moves.well_formed)
      | inr other ↦
          rw (advance_while-stops is_digit c cs l other e) (skip_fraction-point (ground arith))
    ])
  ]

  scan_number-Advances :
      (is_digit c || c == b'.' || c == b'-') ≡ true → Advances l (scan_number l).0
  unfolding scan_number
  scan_number-Advances t =
      let prefix = number_prefix-Advances t in
      if_keeps (Advances l) _ _ _ (λ _. prefix)
        (λ _.
          Advances-Moves prefix (advance_while-Moves is_letter _ _ refl prefix.moves.well_formed))

  pub scan_token-Advances : Advances l (scan_token c l).0
  unfolding scan_token
  scan_token-Advances =
      let one : Advances l (advance l) = advance-Advances l c cs e w in
      if_keeps (Advances l) (c == b'(') _ _ (λ _. one)
        (λ _.
          if_keeps (Advances l) (c == b')') _ _ (λ _. one)
            (λ _.
              if_keeps (Advances l) (c == b',') _ _ (λ _. one)
                (λ _.
                  if_keeps (Advances l) (c == b'@') _ _ (λ _. one)
                    (λ _.
                      if_keeps (Advances l) (c == b'\'') _ _
                        (λ _. scan_raw_string-Advances c cs l e w)
                        (λ _.
                          if_keeps (Advances l) (c == b'"') _ _
                            (λ _. scan_escaped_string-Advances c cs l e w)
                            (λ _.
                              if_keeps (Advances l) (is_letter c || c == b'_') _ _
                                (λ h.
                                  scan_ident_or_keyword-Advances c cs l e w
                                    (unfold is_word in ground arith))
                                (λ _.
                                  if_keeps (Advances l) (is_digit c || c == b'.' || c == b'-') _ _
                                    scan_number-Advances (λ _. one))))))))
