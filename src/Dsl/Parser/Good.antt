-- ===== src/Dsl/Parser/Good.antt =====
-- What a part of the parser returns when all goes well: microceph/dsl/parser.go.
use microceph.Prelude.{
  ℕ, ◌+◌, ◌*◌, ◌<◌, [], Bool, true, false, ◌≡◌, refl, ap, ◌≢◌, inl, inr, if◌then◌else◌, Result, ok,
  err, ◌>>=◌, length, arith,
}
use microceph.Dsl.Token.{TokenType, eof}
use microceph.Dsl.Lexer.{next_token}
use microceph.Dsl.Lexer.Invariant.{IsWellFormed}
use microceph.Dsl.Lexer.Progress.{next_token-Ok, is_eof}
use microceph.Dsl.Parser.{
  Message, Failure, out_of_rounds, Parser, advance, fail, is_rparen, is_lparen, is_comma, is_ident,
  is_end,
}

-- The lexer is in order, and nothing is left behind the end token.
pub record ParserOk (p : Parser) : Type 0 where
  pub lexer_ok : IsWellFormed p.lexer
  pub ended : is_end p.current.type ≡ true → p.lexer.rest ≡ []

-- What falls with each token.
abbrev pub left : Parser → ℕ
left p = 2 * length p.lexer.rest + (if is_end p.current.type then 0 else 1)

pub is_end-eof : (t : TokenType) → is_end t ≡ is_eof t
is_end-eof eof = refl
is_end-eof _ = refl

pub advance-ParserOk : (p : Parser) → ParserOk p → ParserOk (advance p)
unfolding advance
advance-ParserOk p o =
    let (l, t) = next_token p.lexer in
    let (m, r) = next_token-Ok p.lexer o.lexer_ok in
    record {
      lexer_ok = m.well_formed;
      ended = λ e. elim r [ inl (_, done) ↦ done | inr (more, _) ↦ cc (is_end-eof t.type) ];
    }

pub advance-left :
    (p : Parser) → ParserOk p → is_end p.current.type ≡ false → left (advance p) < left p
unfolding advance
advance-left p o f =
    let (l, t) = next_token p.lexer in
    let (m, r) = next_token-Ok p.lexer o.lexer_ok in
    elim r [
      | inl (e, done) ↦ ground (arith, is_end-eof t.type, ap (length {A = ℕ}) done)
      | inr (e, less) ↦ ground (arith, is_end-eof t.type)
    ]

-- A finished run: a tree that satisfies `Q` with the parser in order and fewer tokens left than
-- `bound`, or an error of the program.
pub data Good {A : Type 0} (Q : A → Type 0) (bound : ℕ) : Result Failure (A × Parser) → Type 0 where
  parsed : {a : A} {q : Parser} → Q a → ParserOk q → left q < bound → Good Q bound (ok (a, q))
  refused : {e : Failure} → e ≢ out_of_rounds → Good Q bound (err e)

pub fail-Good :
    {A : Type 0} (Q : A → Type 0) (b : ℕ) (p : Parser) (m : Message) → Good Q b (fail p m)
unfolding fail
fail-Good Q b p m = refused (cc)

pub if_Good :
    {A : Type 0} (Q : A → Type 0) (b : ℕ) (t : Bool) {x y : Result Failure (A × Parser)}
    → (t ≡ true → Good Q b x)
    → (t ≡ false → Good Q b y)
    → Good Q b (if t then x else y)
if_Good Q b true h k = h refl
if_Good Q b false h k = k refl

pub Good-bind :
    {A B : Type 0} (Q : A → Type 0) (R : B → Type 0) (b c : ℕ) {m : Result Failure (A × Parser)}
    (f : A × Parser → Result Failure (B × Parser))
    → Good Q b m
    → ((a : A) (q : Parser) → Q a → ParserOk q → left q < b → Good R c (f (a, q)))
    → Good R c (m >>= f)
Good-bind Q R b c f (parsed {a} {q} h o l) k = k a q h o l
Good-bind Q R b c f (refused n) k = refused n

-- A token that passes a test for its type is not the end.
pub not_end_of_ident : (t : TokenType) → is_ident t ≡ true → is_end t ≡ false
not_end_of_ident eof h = cc
not_end_of_ident _ h = refl

pub not_end_of_lparen : (t : TokenType) → is_lparen t ≡ true → is_end t ≡ false
not_end_of_lparen eof h = cc
not_end_of_lparen _ h = refl

pub not_end_of_rparen : (t : TokenType) → is_rparen t ≡ true → is_end t ≡ false
not_end_of_rparen eof h = cc
not_end_of_rparen _ h = refl

pub not_end_of_comma : (t : TokenType) → is_comma t ≡ true → is_end t ≡ false
not_end_of_comma eof h = cc
not_end_of_comma _ h = refl
