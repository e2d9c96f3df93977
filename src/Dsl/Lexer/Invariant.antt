-- ===== src/Dsl/Lexer/Invariant.antt =====
-- The cursor, the line and the column of a lexer against the bytes read: microceph/dsl/lexer.go.
use microceph.Prelude.{
  ℕ, ◌+◌, ◌≤◌, ◌<◌, [], ◌∷◌, ◌++◌, Bool, true, false, ◌≡◌, refl, ap, ◌∙◌, sym, subst, ◌⊎◌, inl, inr,
  ◌==◌, nat_eq, if◌then◌else◌, length, length-append, arith, append_assoc, Bool-cases,
}
use microceph.Dsl.Text.{Bytes}
use microceph.Dsl.Token.{Position}
use microceph.Dsl.Lexer.{Lexer, advance, advance_while, raw_string_from}

-- Newlines among the bytes, and the bytes behind the last of them.
abbrev pub newlines : Bytes → ℕ
newlines [] = 0
newlines (c ∷ cs) = (if c == b'\n' then 1 else 0) + newlines cs

abbrev pub column_after : ℕ → Bytes → ℕ
column_after n [] = n
column_after n (c ∷ cs) = column_after (if c == b'\n' then 1 else n + 1) cs

-- The lexer stands behind the bytes `read`.
pub record StandsAt (read : Bytes) (l : Lexer) : Type 0 where
  pub splits : l.input ≡ read ++ l.rest
  pub pos_is : l.pos ≡ length read
  pub line_is : l.line ≡ 1 + newlines read
  pub column_is : l.column ≡ column_after 1 read

pub record IsWellFormed (l : Lexer) : Type 0 where
  pub read : Bytes
  pub stands : StandsAt read l

-- The input stays, and the cursor does not move back.
pub record Moves (l l' : Lexer) : Type 0 where
  pub same_input : l'.input ≡ l.input
  pub shorter : length l'.rest ≤ length l.rest
  pub well_formed : IsWellFormed l'

newlines-snoc :
    (cs : Bytes) (c : ℕ) → newlines (cs ++ c ∷ []) ≡ newlines cs + (if c == b'\n' then 1 else 0)
newlines-snoc [] c = omega arith
newlines-snoc (d ∷ cs) c = ground (arith, newlines-snoc cs c)

column_after-snoc :
    (n : ℕ) (cs : Bytes) (c : ℕ)
    → column_after n (cs ++ c ∷ []) ≡ (if c == b'\n' then 1 else column_after n cs + 1)
column_after-snoc n [] c = refl
column_after-snoc n (d ∷ cs) c = column_after-snoc (if d == b'\n' then 1 else n + 1) cs c

advance-StandsAt :
    (read : Bytes) (c : ℕ) (cs : Bytes) (l : Lexer)
    → l.rest ≡ c ∷ cs
    → StandsAt read l
    → StandsAt (read ++ c ∷ []) (advance l)
unfolding advance
advance-StandsAt read c cs l e s = rw e (record {
  splits = rw append_assoc (s.splits ∙ ap (λ (z : Bytes). read ++ z) e);
  pos_is = omega (arith, s.pos_is, length-append read (c ∷ []));
  line_is = ground (arith, s.line_is, newlines-snoc read c);
  column_is = ground (arith, s.column_is, column_after-snoc 1 read c);
})

pub List-cases : (cs : Bytes) → (cs ≡ []) ⊎ ((c : ℕ) × (ds : Bytes) × (cs ≡ c ∷ ds))
List-cases [] = inl refl
List-cases (c ∷ ds) = inr (c, ds, refl)

pub Moves-refl : {l : Lexer} → IsWellFormed l → Moves l l
Moves-refl w = record { same_input = refl; shorter = omega arith; well_formed = w }

pub Moves-trans : {l m n : Lexer} → Moves l m → Moves m n → Moves l n
Moves-trans p q = record {
  same_input = q.same_input ∙ p.same_input;
  shorter = omega arith;
  well_formed = q.well_formed;
}

pub advance-rest : (l : Lexer) (c : ℕ) (cs : Bytes) → l.rest ≡ c ∷ cs → (advance l).rest ≡ cs
unfolding advance
advance-rest l c cs e = rw e

advance-input : (l : Lexer) → (advance l).input ≡ l.input
unfolding advance
advance-input l = elim (List-cases l.rest) [ inl e ↦ rw e | inr (c, ds, e) ↦ rw e ]

advance-stuck : (l : Lexer) → l.rest ≡ [] → advance l ≡ l
unfolding advance
advance-stuck l e = rw e

pub advance-Moves : (l : Lexer) → IsWellFormed l → Moves l (advance l)
advance-Moves l w = elim (List-cases l.rest) [
  | inl e ↦ rw (advance-stuck l e) (Moves-refl w)
  | inr (c, ds, e) ↦ record {
    same_input = advance-input l;
    shorter = rw (advance-rest l c ds e, e) (omega arith);
    well_formed = record {
      read = w.read ++ c ∷ [];
      stands = advance-StandsAt w.read c ds l e w.stands;
    };
  }
]

-- A step that reads at least one byte.
pub record Advances (l l' : Lexer) : Type 0 where
  pub moves : Moves l l'
  pub strictly : length l'.rest < length l.rest

pub advance-Advances :
    (l : Lexer) (c : ℕ) (cs : Bytes) → l.rest ≡ c ∷ cs → IsWellFormed l → Advances l (advance l)
advance-Advances l c cs e w = record {
  moves = advance-Moves l w;
  strictly = rw (advance-rest l c cs e, e) (omega arith);
}

pub Advances-Moves : {l m n : Lexer} → Advances l m → Moves m n → Advances l n
Advances-Moves p q = record { moves = Moves-trans p.moves q; strictly = omega (arith, q.shorter) }

pub Moves-Advances : {l m n : Lexer} → Moves l m → Advances m n → Advances l n
Moves-Advances p q = record { moves = Moves-trans p q.moves; strictly = omega (arith, p.shorter) }

pub advance_while-Moves :
    (test : ℕ → Bool) (cs : Bytes) (l : Lexer)
    → l.rest ≡ cs
    → IsWellFormed l
    → Moves l (advance_while test cs l)
unfolding advance_while
advance_while-Moves test [] l e w = Moves-refl w
advance_while-Moves test (c ∷ cs) l e w = elim (Bool-cases (test c)) [
  | inl t ↦
      let step = advance-Moves l w in
      rw t (
        Moves-trans step
          (advance_while-Moves test cs (advance l) (advance-rest l c cs e) step.well_formed))
  | inr f ↦ rw f (Moves-refl w)
]

advance_over-Advances :
    (test : ℕ → Bool) (c : ℕ) (cs : Bytes) (l : Lexer)
    → test c ≡ true
    → l.rest ≡ c ∷ cs
    → IsWellFormed l
    → Advances l (advance_while test (c ∷ cs) l)
unfolding advance_while
advance_over-Advances test c cs l t e w =
    let step = advance-Advances l c cs e w in
    rw t (
      Advances-Moves step
        (advance_while-Moves test cs (advance l) (advance-rest l c cs e) step.moves.well_formed))

pub advance_while-Advances :
    (test : ℕ → Bool) (c : ℕ) (cs : Bytes) (l : Lexer)
    → test c ≡ true
    → l.rest ≡ c ∷ cs
    → IsWellFormed l
    → Advances l (advance_while test l.rest l)
advance_while-Advances test c cs l t e w =
    subst (λ (ds : Bytes). Advances l (advance_while test ds l)) (sym e)
      (advance_over-Advances test c cs l t e w)

-- A loop whose test fails at once reads nothing.
pub advance_while-stops :
    (test : ℕ → Bool) (c : ℕ) (cs : Bytes) (l : Lexer)
    → test c ≡ false
    → l.rest ≡ c ∷ cs
    → advance_while test l.rest l ≡ l
unfolding advance_while
advance_while-stops test c cs l f e =
    subst (λ (ds : Bytes). advance_while test ds l ≡ l) (sym e) (rw f)

pub raw_string_from-Moves :
    (start : Position) (cs built : Bytes) (l : Lexer)
    → l.rest ≡ cs
    → IsWellFormed l
    → Moves l (raw_string_from start cs built l).0
unfolding raw_string_from
raw_string_from-Moves start [] built l e w = Moves-refl w
raw_string_from-Moves start (c ∷ []) built l e w = elim (Bool-cases (c == b'\'')) [
  | inl t ↦ rw t (advance-Moves l w)
  | inr f ↦ rw f (advance-Moves l w)
]
raw_string_from-Moves start (c ∷ d ∷ cs) built l e w =
    let one = advance-Moves l w in
    let two = advance-Moves (advance l) one.well_formed in
    let at_one = advance-rest l c (d ∷ cs) e in
    elim (Bool-cases (c == b'\'')) [
      | inl t ↦ rw t (elim (Bool-cases (d == b'\'')) [
        | inl u ↦ rw u (
            Moves-trans (Moves-trans one two) (
              raw_string_from-Moves start cs (built ++ b'\'' ∷ []) (advance (advance l))
                (advance-rest (advance l) d cs at_one) two.well_formed))
        | inr g ↦ rw g one
      ])
      | inr f ↦ rw f (
          Moves-trans one (
            raw_string_from-Moves start (d ∷ cs) (built ++ c ∷ []) (advance l) at_one
              one.well_formed))
    ]
