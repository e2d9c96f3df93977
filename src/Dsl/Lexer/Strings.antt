-- ===== src/Dsl/Lexer/Strings.antt =====
-- String literals, and how a text is written as one: scanRawString and scanEscapedString of
-- microceph/dsl/lexer.go.
use microceph.Prelude.{
  ℕ, [], ◌∷◌, ◌++◌, true, false, some, ◌≡◌, refl, ap, ◌∙◌, inl, inr, ◌==◌, nat_eq, eqb_iff,
  if◌then◌else◌, append_assoc, append-nil, arith, Bool-cases,
}
use microceph.Dsl.Text.{Bytes}
use microceph.Dsl.Token.{Position, Token, string}
use microceph.Dsl.Lexer.{
  Lexer, advance, skip_whitespace, is_space, raw_string_from, scan_raw_string, escaped_string_from,
  scan_escaped_string, scan_token, next_token, token_at, token, current_pos, unescape, sees,
}
use microceph.Dsl.Lexer.Invariant.{advance-rest, advance_while-stops}

-- How a text is written in single quotes.
unfoldable pub quote_raw : Bytes → Bytes
quote_raw [] = []
quote_raw (c ∷ cs) = if c == b'\'' then b'\'' ∷ b'\'' ∷ quote_raw cs else c ∷ quote_raw cs

-- The result is the string `s`, and `tail` is what is left.
abbrev pub ReadsString : Position → Bytes → Bytes → Lexer × Token → Type 0
ReadsString start s tail (l, t) = (t ≡ token string s start) × (l.rest ≡ tail)

raw_string_from-plain :
    (start : Position) (c : ℕ) (cs built : Bytes) (l : Lexer)
    → (c == b'\'') ≡ false
    → raw_string_from start (c ∷ cs) built l
      ≡ raw_string_from start cs (built ++ c ∷ []) (advance l)
unfolding raw_string_from
raw_string_from-plain start c [] built l f = rw f
raw_string_from-plain start c (d ∷ cs) built l f = rw f

raw_string_from-close :
    (start : Position) (tail built : Bytes) (l : Lexer)
    → sees (λ c. c == b'\'') tail ≡ false
    → l.rest ≡ b'\'' ∷ tail
    → ReadsString start built tail (raw_string_from start (b'\'' ∷ tail) built l)
unfolding raw_string_from sees
raw_string_from-close start [] built l f e = (refl, advance-rest l b'\'' [] e)
raw_string_from-close start (d ∷ tail) built l f e = rw f (refl, advance-rest l b'\'' (d ∷ tail) e)

raw_string_from-quote :
    (start : Position) (cs built : Bytes) (l : Lexer)
    → raw_string_from start (b'\'' ∷ b'\'' ∷ cs) built l
      ≡ raw_string_from start cs (built ++ b'\'' ∷ []) (advance (advance l))
unfolding raw_string_from
raw_string_from-quote start cs built l = refl

quote_raw-quote :
    (c : ℕ) (s tail : Bytes)
    → (c == b'\'') ≡ true
    → quote_raw (c ∷ s) ++ tail ≡ b'\'' ∷ b'\'' ∷ (quote_raw s ++ tail)
unfolding quote_raw
quote_raw-quote c s tail t = rw t

quote_raw-plain :
    (c : ℕ) (s tail : Bytes)
    → (c == b'\'') ≡ false
    → quote_raw (c ∷ s) ++ tail ≡ c ∷ (quote_raw s ++ tail)
unfolding quote_raw
quote_raw-plain c s tail f = rw f

raw_string_from-quote_raw :
    (start : Position) (s tail text built : Bytes) (l : Lexer)
    → sees (λ c. c == b'\'') tail ≡ false
    → text ≡ quote_raw s ++ b'\'' ∷ tail
    → l.rest ≡ text
    → ReadsString start (built ++ s) tail (raw_string_from start text built l)
raw_string_from-quote_raw start [] tail text built l f p e =
    let q : text ≡ b'\'' ∷ tail = unfold quote_raw in p in
    rw (append-nil, q) (raw_string_from-close start tail built l f (e ∙ q))
raw_string_from-quote_raw start (c ∷ s) tail text built l f p e = elim (Bool-cases (c == b'\'')) [
  | inl t ↦
      let q = p ∙ quote_raw-quote c s (b'\'' ∷ tail) t in
      let at_two = advance-rest (advance l) _ _ (advance-rest l _ _ (e ∙ q)) in
      let later =
        raw_string_from-quote_raw start s tail _ (built ++ b'\'' ∷ []) (advance (advance l)) f refl
          at_two in
      rw (q, raw_string_from-quote, (eqb_iff c b'\'').0 t) (rw append_assoc at later)
  | inr g ↦
      let q = p ∙ quote_raw-plain c s (b'\'' ∷ tail) g in
      let later =
        raw_string_from-quote_raw start s tail _ (built ++ c ∷ []) (advance l) f refl
          (advance-rest l _ _ (e ∙ q)) in
      rw (q, raw_string_from-plain start c (quote_raw s ++ b'\'' ∷ tail) built l g)
        (rw append_assoc at later)
]

-- How a text is written in double quotes.
abbrev pub escape_byte : ℕ → Bytes
escape_byte c =
    if c == b'\\'
    then b'\\' ∷ b'\\' ∷ []
    else if c == b'"'
    then b'\\' ∷ b'"' ∷ []
    else if c == b'\n'
    then b'\\' ∷ b'n' ∷ []
    else c ∷ []

unfoldable pub escape : Bytes → Bytes
escape [] = []
escape (c ∷ cs) = escape_byte c ++ escape cs

escaped_string_from-plain :
    (start : Position) (c : ℕ) (cs built : Bytes) (l : Lexer)
    → (c == b'"') ≡ false
    → (c == b'\\') ≡ false
    → (c == b'\n') ≡ false
    → escaped_string_from start (c ∷ cs) built l
      ≡ escaped_string_from start cs (built ++ c ∷ []) (advance l)
unfolding escaped_string_from
escaped_string_from-plain start c [] built l f g h = rw (f, g, h)
escaped_string_from-plain start c (d ∷ cs) built l f g h = rw (f, g, h)

escaped_string_from-escape :
    (start : Position) (d x : ℕ) (cs built : Bytes) (l : Lexer)
    → unescape d ≡ some x
    → escaped_string_from start (b'\\' ∷ d ∷ cs) built l
      ≡ escaped_string_from start cs (built ++ x ∷ []) (advance (advance l))
unfolding escaped_string_from
escaped_string_from-escape start d x cs built l u = rw u

escaped_string_from-close :
    (start : Position) (tail built : Bytes) (l : Lexer)
    → l.rest ≡ b'"' ∷ tail
    → ReadsString start built tail (escaped_string_from start (b'"' ∷ tail) built l)
unfolding escaped_string_from
escaped_string_from-close start [] built l e = (refl, advance-rest l b'"' [] e)
escaped_string_from-close start (d ∷ tail) built l e = (refl, advance-rest l b'"' (d ∷ tail) e)

-- One byte as it is written, read back.
data Written (c : ℕ) : Bytes → Type 0 where
  plainly : (c == b'"') ≡ false → (c == b'\\') ≡ false → (c == b'\n') ≡ false → Written c (c ∷ [])
  escaped : (d : ℕ) → unescape d ≡ some c → Written c (b'\\' ∷ d ∷ [])

escape_byte-Written : (c : ℕ) → Written c (escape_byte c)
unfolding unescape
escape_byte-Written c = elim (Bool-cases (c == b'\\')) [
  | inl t ↦ rw t (escaped b'\\' (ground arith))
  | inr f ↦ rw f (elim (Bool-cases (c == b'"')) [
    | inl t ↦ rw t (escaped b'"' (ground arith))
    | inr g ↦ rw g (elim (Bool-cases (c == b'\n')) [
      | inl t ↦ rw t (escaped b'n' (ground arith))
      | inr h ↦ rw h (plainly g f h)
    ])
  ])
]

-- The written byte is read in one round, and the rest is read from behind it.
escaped_string_from-Written :
    (start : Position) (c : ℕ) (w more built tail s : Bytes) (l : Lexer)
    → Written c w
    → l.rest ≡ w ++ more
    → ((l' : Lexer)
        → l'.rest ≡ more
        → ReadsString start s tail (escaped_string_from start more (built ++ c ∷ []) l'))
    → ReadsString start s tail (escaped_string_from start (w ++ more) built l)
escaped_string_from-Written start c w more built tail s l (plainly f g h) e k =
    rw (escaped_string_from-plain start c more built l f g h)
      (k (advance l) (advance-rest l c more e))
escaped_string_from-Written start c w more built tail s l (escaped d u) e k =
    rw (escaped_string_from-escape start d c more built l u) (
      k (advance (advance l)) (advance-rest (advance l) d more (advance-rest l b'\\' (d ∷ more) e)))

escape-cons :
    (c : ℕ) (s tail : Bytes) → escape (c ∷ s) ++ tail ≡ escape_byte c ++ (escape s ++ tail)
unfolding escape
escape-cons c s tail = append_assoc (escape_byte c) (escape s) tail

escaped_string_from-escape_all :
    (start : Position) (s tail text built : Bytes) (l : Lexer)
    → text ≡ escape s ++ b'"' ∷ tail
    → l.rest ≡ text
    → ReadsString start (built ++ s) tail (escaped_string_from start text built l)
escaped_string_from-escape_all start [] tail text built l p e =
    let q : text ≡ b'"' ∷ tail = unfold escape in p in
    rw (append-nil, q) (escaped_string_from-close start tail built l (e ∙ q))
escaped_string_from-escape_all start (c ∷ s) tail text built l p e =
    let q = p ∙ escape-cons c s (b'"' ∷ tail) in
    rw q (
      escaped_string_from-Written start c (escape_byte c) (escape s ++ b'"' ∷ tail) built tail
        (built ++ c ∷ s) l (escape_byte-Written c) (e ∙ q)
        (λ l' at_more. rw append_assoc at (
          escaped_string_from-escape_all start s tail (escape s ++ b'"' ∷ tail) (built ++ c ∷ []) l'
            refl at_more)))

-- NextToken goes straight to a byte that is no white space.
next_token-at :
    (c : ℕ) (cs : Bytes) (l : Lexer)
    → is_space c ≡ false
    → l.rest ≡ c ∷ cs
    → next_token l ≡ scan_token c (record l { start = l.pos })
unfolding next_token skip_whitespace token_at
next_token-at c cs l f e =
    let at_byte : token_at l.rest l ≡ scan_token c (record l { start = l.pos }) =
      ap (λ (z : Bytes). token_at z l) e in
    rw (advance_while-stops is_space c cs l f e) at_byte

-- Any byte string in single quotes, its quotes doubled, is read back as that string, whatever
-- follows the closing quote but another quote.
pub next_token-quote_raw :
    (s tail : Bytes) (l : Lexer)
    → sees (λ c. c == b'\'') tail ≡ false
    → l.rest ≡ b'\'' ∷ (quote_raw s ++ b'\'' ∷ tail)
    → ReadsString (current_pos l) s tail (next_token l)
unfolding scan_token scan_raw_string is_space current_pos
next_token-quote_raw s tail l f e =
    let l₀ : Lexer = record l { start = l.pos } in
    let at_one = advance-rest l₀ _ _ e in
    rw (next_token-at b'\'' _ l refl e)
      (raw_string_from-quote_raw (current_pos l) s tail _ [] (advance l₀) f at_one refl)

-- Any byte string in double quotes, its backslashes, double quotes and newlines escaped, is read
-- back as that string, whatever follows.
pub next_token-escape :
    (s tail : Bytes) (l : Lexer)
    → l.rest ≡ b'"' ∷ (escape s ++ b'"' ∷ tail)
    → ReadsString (current_pos l) s tail (next_token l)
unfolding scan_token scan_escaped_string is_space current_pos
next_token-escape s tail l e =
    let l₀ : Lexer = record l { start = l.pos } in
    let at_one = advance-rest l₀ _ _ e in
    rw (next_token-at b'"' _ l refl e)
      (escaped_string_from-escape_all (current_pos l) s tail _ [] (advance l₀) at_one refl)
