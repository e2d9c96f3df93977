-- ===== src/Dsl/Lexer/Progress.antt =====
-- NextToken as a step over the input: microceph/dsl/lexer.go.
use microceph.Prelude.{
  ℕ, ◌<◌, [], ◌∷◌, Bool, true, false, ◌||◌, ◌≡◌, refl, ◌⊎◌, inl, inr, ◌==◌, nat_eq, if◌then◌else◌,
  length, arith, Option-cases, ok,
}
use microceph.Dsl.Text.{Bytes, is_digit, is_letter}
use microceph.Dsl.Token.{Position, Token, TokenType, eof}
use microceph.Dsl.Lexer.{
  Lexer, new_lexer, skip_whitespace, scan_ident_or_keyword, scan_number, raw_string_from,
  scan_raw_string, escaped_string_from, scan_escaped_string, scan_token, token_at, next_token,
  unescape,
}
use microceph.Dsl.Lexer.Invariant.{
  IsWellFormed, Moves, Moves-refl, Moves-trans, advance_while-Moves,
}
use microceph.Dsl.Lexer.Scan.{scan_token-Advances}

abbrev pub is_eof : TokenType → Bool
is_eof eof = true
is_eof _ = false

abbrev NotEof : Lexer × Token → Type 0
NotEof r = is_eof r.1.type ≡ false

if_NotEof : (b : Bool) (x y : Lexer × Token) → NotEof x → NotEof y → NotEof (if b then x else y)
if_NotEof true x y h k = h
if_NotEof false x y h k = k

raw_string_from-NotEof :
    (start : Position) (cs built : Bytes) (l : Lexer) → NotEof (raw_string_from start cs built l)
unfolding raw_string_from
raw_string_from-NotEof start [] built l = refl
raw_string_from-NotEof start (c ∷ []) built l = if_NotEof (c == b'\'') _ _ refl refl
raw_string_from-NotEof start (c ∷ d ∷ cs) built l =
    if_NotEof (c == b'\'') _ _
      (if_NotEof (d == b'\'') _ _ (raw_string_from-NotEof start cs _ _) refl)
      (raw_string_from-NotEof start (d ∷ cs) _ _)

escaped_string_from-NotEof :
    (start : Position) (cs built : Bytes) (l : Lexer)
    → NotEof (escaped_string_from start cs built l)
unfolding escaped_string_from
escaped_string_from-NotEof start [] built l = refl
escaped_string_from-NotEof start (c ∷ []) built l =
    if_NotEof (c == b'"') _ _ refl
      (if_NotEof (c == b'\\') _ _ refl (if_NotEof (c == b'\n') _ _ refl refl))
escaped_string_from-NotEof start (c ∷ d ∷ cs) built l = if_NotEof (c == b'"') _ _ refl (
    if_NotEof (c == b'\\') _ _
      (elim (Option-cases (unescape d)) [
        | inl bad ↦ rw bad refl
        | inr (x, good) ↦ rw good (escaped_string_from-NotEof start cs _ _)
      ])
      (if_NotEof (c == b'\n') _ _ refl (escaped_string_from-NotEof start (d ∷ cs) _ _)))

scan_number-NotEof : (l : Lexer) → NotEof (scan_number l)
unfolding scan_number
scan_number-NotEof l = ground arith

scan_ident_or_keyword-NotEof : (l : Lexer) → NotEof (scan_ident_or_keyword l)
unfolding scan_ident_or_keyword
scan_ident_or_keyword-NotEof l = ground arith

scan_token-NotEof : (c : ℕ) (l : Lexer) → NotEof (scan_token c l)
unfolding scan_token scan_raw_string scan_escaped_string
scan_token-NotEof c l = if_NotEof (c == b'(') _ _ refl (
    if_NotEof (c == b')') _ _ refl (
      if_NotEof (c == b',') _ _ refl (
        if_NotEof (c == b'@') _ _ refl (
          if_NotEof (c == b'\'') _ _ (raw_string_from-NotEof _ _ [] _) (
            if_NotEof (c == b'"') _ _ (escaped_string_from-NotEof _ _ [] _) (
              if_NotEof (is_letter c || c == b'_') _ _ (scan_ident_or_keyword-NotEof l) (
                if_NotEof (is_digit c || c == b'.' || c == b'-') _ _ (scan_number-NotEof l)
                  refl)))))))

skip_whitespace-Moves : (l : Lexer) → IsWellFormed l → Moves l (skip_whitespace l)
unfolding skip_whitespace
skip_whitespace-Moves l w = advance_while-Moves _ l.rest l refl w

-- `start` plays no part.
set_start-Moves : (n : ℕ) (l : Lexer) → IsWellFormed l → Moves l (record l { start = n })
set_start-Moves n l w = record {
  same_input = refl;
  shorter = omega arith;
  well_formed = record {
    read = w.read;
    stands = record {
      splits = w.stands.splits;
      pos_is = w.stands.pos_is;
      line_is = w.stands.line_is;
      column_is = w.stands.column_is;
    };
  };
}

-- What NextToken does from a lexer in order: it ends the token stream with nothing left, or it
-- reads at least one byte and returns another token.
abbrev pub NextTokenOk : Lexer → Lexer × Token → Type 0
NextTokenOk l (l', t) =
    Moves l l'
    × (((is_eof t.type ≡ true) × (l'.rest ≡ []))
        ⊎ ((is_eof t.type ≡ false) × (length l'.rest < length l.rest)))

token_at-Ok :
    (cs : Bytes) (l : Lexer) → l.rest ≡ cs → IsWellFormed l → NextTokenOk l (token_at cs l)
unfolding token_at
token_at-Ok [] l e w = (Moves-refl w, inl (refl, e))
token_at-Ok (c ∷ cs) l e w =
    let started = set_start-Moves l.pos l w in
    let step = scan_token-Advances c cs (record l { start = l.pos }) e started.well_formed in
    (
      Moves-trans started step.moves,
      inr (scan_token-NotEof c (record l { start = l.pos }), step.strictly),
    )

-- From a lexer in order, NextToken leaves one in order over the same input, not further back,
-- and either ends the stream with nothing left to read or reads at least one byte.
pub next_token-Ok : (l : Lexer) → IsWellFormed l → NextTokenOk l (next_token l)
unfolding next_token
next_token-Ok l w =
    let skipped = skip_whitespace-Moves l w in
    let l' = skip_whitespace l in
    let (m, r) = token_at-Ok l'.rest l' refl skipped.well_formed in
    (
      Moves-trans skipped m,
      elim r [
        | inl (t, done) ↦ inl (t, done)
        | inr (t, less) ↦ inr (t, omega (arith, skipped.shorter))
      ],
    )

pub new_lexer-IsWellFormed : (input : Bytes) (l : Lexer) → new_lexer input ≡ ok l → IsWellFormed l
unfolding new_lexer
new_lexer-IsWellFormed input l h = record {
  read = [];
  stands = record {
    splits = ground arith;
    pos_is = ground arith;
    line_is = ground arith;
    column_is = ground arith;
  };
}
