-- ===== src/Dsl/Lexer.antt =====
-- The lexer: microceph/dsl/lexer.go.
pub mod Invariant
pub mod Strings
pub mod Scan
pub mod Progress
use microceph.Prelude.{
  ℕ, zero, suc, ◌+◌, ◌-◌, ◌*◌, List, [], ◌∷◌, ◌++◌, Bool, true, false, not, ◌&&◌, ◌||◌, Option,
  none, some, ◌==◌, nat_eq, ltb, leb, if◌then◌else◌, Result, ok, err, length, take, drop,
}
use microceph.Dsl.Text.{Bytes, codes, bytes_eq, is_digit, is_letter, to_lower, rune_bytes}
use microceph.Dsl.Token.{
  Position, TokenType, Token, eof, ident, number, string, true_word, false_word, at, lparen, rparen,
  comma, error,
}

-- `rest` stands for `input[pos:]`.
pub record Lexer : Type 0 where
  pub input : Bytes
  pub rest : Bytes
  pub pos : ℕ
  pub line : ℕ
  pub column : ℕ
  pub start : ℕ

abbrev pub max_input_size : ℕ
max_input_size = 10 * 1024

-- NewLexer; the error carries the size of the input.
unfoldable pub new_lexer : Bytes → Result ℕ Lexer
new_lexer input =
    if ltb max_input_size (length input)
    then err (length input)
    else ok (record { input = input; rest = input; pos = 0; line = 1; column = 1; start = 0 })

unfoldable pub current_pos : Lexer → Position
current_pos l = record { line = l.line; column = l.column; offset = l.pos }

advance_over : Bytes → Lexer → Lexer
advance_over [] l = l
advance_over (c ∷ cs) l = record l {
  rest = cs;
  pos = l.pos + 1;
  line = if c == b'\n' then l.line + 1 else l.line;
  column = if c == b'\n' then 1 else l.column + 1;
}

unfoldable pub advance : Lexer → Lexer
unfolding advance_over
advance l = advance_over l.rest l

-- `for l.pos < len(l.input) && test(l.input[l.pos]) { l.advance() }`, over what is left.
unfoldable pub advance_while : (ℕ → Bool) → Bytes → Lexer → Lexer
advance_while test [] l = l
advance_while test (c ∷ cs) l =
    let more = advance_while test cs (advance l) in if test c then more else l

is_space : ℕ → Bool
is_space c = c == b' ' || c == b'\t' || c == b'\n' || c == b'\r'

unfoldable pub skip_whitespace : Lexer → Lexer
unfolding is_space
skip_whitespace l = advance_while is_space l.rest l

-- `l.input[start:l.pos]`, where `l` was at `start`.
abbrev pub text_between : Lexer → Lexer → Bytes
text_between l l' = take (l'.pos - l.pos) l.rest

abbrev pub token : TokenType → Bytes → Position → Token
token type value pos = record { type = type; value = value; pos = pos }

unfoldable pub is_word : ℕ → Bool
is_word c = is_letter c || is_digit c || c == b'_'

unfoldable pub scan_ident_or_keyword : Lexer → Lexer × Token
scan_ident_or_keyword l =
    let l' = advance_while is_word l.rest l in
    let value = text_between l l' in
    (
      l',
      if to_lower value == codes "true"
          then token true_word value (current_pos l)
          else if to_lower value == codes "false"
          then token false_word value (current_pos l)
          else token ident value (current_pos l),
    )

-- Whether the next byte is there and passes the test.
unfoldable pub sees : (ℕ → Bool) → Bytes → Bool
sees test [] = false
sees test (c ∷ cs) = test c

-- The optional sign.
skip_sign : Lexer → Lexer
skip_sign l = if sees (λ c. c == b'-') l.rest then advance l else l

-- The optional decimal point with the digits behind it.
skip_fraction : Lexer → Lexer
skip_fraction l =
    let p = advance l in if sees (λ c. c == b'.') l.rest then advance_while is_digit p.rest p else l

unfoldable pub scan_number : Lexer → Lexer × Token
unfolding skip_sign skip_fraction
scan_number l =
    let signed = skip_sign l in
    let whole = advance_while is_digit signed.rest signed in
    let point = sees (λ c. c == b'.') whole.rest in
    let fraction = skip_fraction whole in
    let has_digits = sees is_digit signed.rest || (point && sees is_digit (advance whole).rest) in
    let unit = advance_while is_letter fraction.rest fraction in
    if not has_digits
    then (
      fraction,
      token error (codes "invalid number: '" ++ (text_between l fraction ++ codes "' (no digits)"))
          (current_pos l),
    )
    else (unit, token number (text_between l unit) (current_pos l))

-- The loop of scanRawString behind the opening quote, with the bytes built so far.
unfoldable pub raw_string_from : Position → Bytes → Bytes → Lexer → Lexer × Token
raw_string_from start [] built l = (l, token error (codes "unterminated string literal") start)
raw_string_from start (c ∷ []) built l =
    if c == b'\''
    then (advance l, token string built start)
    else (advance l, token error (codes "unterminated string literal") start)
raw_string_from start (c ∷ d ∷ cs) built l =
    let quote = raw_string_from start cs (built ++ b'\'' ∷ []) (advance (advance l)) in
    let plain = raw_string_from start (d ∷ cs) (built ++ c ∷ []) (advance l) in
    if c == b'\''
    then (if d == b'\'' then quote else (advance l, token string built start))
    else plain

unfoldable pub scan_raw_string : Lexer → Lexer × Token
scan_raw_string l = let l' = advance l in raw_string_from (current_pos l) l'.rest [] l'

-- The byte that an escape stands for.
unfoldable pub unescape : ℕ → Option ℕ
unescape c =
    if c == b'\\'
    then some b'\\'
    else if c == b'"'
    then some b'"'
    else if c == b'n'
    then some b'\n'
    else if c == b't'
    then some b'\t'
    else if c == b'r'
    then some b'\r'
    else none

invalid_escape : ℕ → Lexer → Lexer × Token
invalid_escape c l = (
  l,
  token error (codes "invalid escape sequence '\\" ++ (rune_bytes c ++ codes "'")) (current_pos l),
)

-- The loop of scanEscapedString behind the opening quote.
unfoldable pub escaped_string_from : Position → Bytes → Bytes → Lexer → Lexer × Token
unfolding invalid_escape
escaped_string_from start [] built l = (l, token error (codes "unterminated string literal") start)
escaped_string_from start (c ∷ []) built l =
    if c == b'"'
    then (advance l, token string built start)
    else if c == b'\\'
    then (l, token error (codes "unterminated escape sequence") start)
    else if c == b'\n'
    then (l, token error (codes "unterminated string literal") start)
    else (advance l, token error (codes "unterminated string literal") start)
escaped_string_from start (c ∷ d ∷ cs) built l =
    let escape = elim (unescape d) as (λ _. Lexer × Token) [
      | none ↦ invalid_escape d (advance l)
      | some e ↦ escaped_string_from start cs (built ++ e ∷ []) (advance (advance l))
    ] in
    let plain = escaped_string_from start (d ∷ cs) (built ++ c ∷ []) (advance l) in
    if c == b'"'
    then (advance l, token string built start)
    else if c == b'\\'
    then escape
    else if c == b'\n'
    then (l, token error (codes "unterminated string literal") start)
    else plain

unfoldable pub scan_escaped_string : Lexer → Lexer × Token
scan_escaped_string l = let l' = advance l in escaped_string_from (current_pos l) l'.rest [] l'

-- The switch of NextToken on the byte at `pos`.
unfoldable pub scan_token : ℕ → Lexer → Lexer × Token
scan_token ch l =
    if ch == b'('
    then (advance l, token lparen (codes "(") (current_pos l))
    else if ch == b')'
    then (advance l, token rparen (codes ")") (current_pos l))
    else if ch == b','
    then (advance l, token comma (codes ",") (current_pos l))
    else if ch == b'@'
    then (advance l, token at (codes "@") (current_pos l))
    else if ch == b'\''
    then scan_raw_string l
    else if ch == b'"'
    then scan_escaped_string l
    else if is_letter ch || ch == b'_'
    then scan_ident_or_keyword l
    else if is_digit ch || ch == b'.' || ch == b'-'
    then scan_number l
    else (
      advance l,
      token error (codes "unexpected character '" ++ (rune_bytes ch ++ codes "'")) (current_pos l),
    )

token_at : Bytes → Lexer → Lexer × Token
token_at [] l = (l, token eof [] (current_pos l))
token_at (ch ∷ _) l = scan_token ch (record l { start = l.pos })

unfoldable pub next_token : Lexer → Lexer × Token
unfolding token_at
next_token l = let l' = skip_whitespace l in token_at l'.rest l'

-- Peek: the state is put back, all but `start`, which nothing reads.
unfoldable pub peek : Lexer → Lexer × Token
peek l =
    let (l', t) = next_token l in
    (record l' { rest = l.rest; pos = l.pos; line = l.line; column = l.column }, t)

-- The two loops of GetContextLine.
line_start : Bytes → ℕ → ℕ
line_start input zero = 0
line_start input (suc n) =
    let back = line_start input n in if sees (λ c. c == b'\n') (drop n input) then suc n else back

line_length : Bytes → ℕ
line_length [] = 0
line_length (c ∷ cs) = let more = line_length cs in if c == b'\n' then 0 else suc more

-- GetContextLine. An offset past the end is clamped to the last byte.
unfoldable pub context_line : Bytes → Position → Bytes
unfolding line_start line_length sees
context_line input p =
    let offset = if ltb p.offset (length input) then p.offset else length input - 1 in
    let from = line_start input offset in
    let to = offset + line_length (drop offset input) in take (to - from) (drop from input)
