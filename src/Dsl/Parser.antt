-- ===== src/Dsl/Parser.antt =====
-- The parser: microceph/dsl/parser.go, and Parse of microceph/dsl/dsl.go.
pub mod Good
pub mod Total
use microceph.Prelude.{
  ℕ, zero, suc, ◌+◌, ◌*◌, List, [], ◌∷◌, Bool, true, false, not, Option, none, some, if◌then◌else◌,
  Result, ok, err, ◌>>=◌, length,
}
use microceph.Dsl.Text.{Bytes, codes}
use microceph.Dsl.Token.{
  Position, TokenType, Token, eof, ident, number, string, true_word, false_word, at, lparen, rparen,
  comma, error,
}
use microceph.Dsl.Lexer.{Lexer, new_lexer, next_token, context_line}
use microceph.Dsl.Library.{Library}
use microceph.Dsl.Units.{UnitError, parse_number_with_unit}
use microceph.Dsl.Ast.{
  Expression, Arguments, string_literal, number_literal, bool_literal, variable, function_call, nil,
  cons,
}

-- One constructor for each message that the parser writes.
pub data Message : Type 0 where
  expected_end unexpected_token lexical : Bytes → Message
  expected_token : TokenType → TokenType → Message
  too_deep expected_variable_name : Message
  expected_paren : Bytes → Message
  bad_number : UnitError → Message

pub record ParseError : Type 0 where
  pub pos : Position
  pub message : Message
  pub context : Bytes

-- `input_too_large` is NewLexer's error. `out_of_rounds` has no counterpart in the program: the
-- loop over a call's arguments was cut off.
pub data Failure : Type 0 where
  parse_error : ParseError → Failure
  input_too_large : ℕ → Failure
  out_of_rounds : Failure

pub record Parser : Type 0 where
  pub lexer : Lexer
  pub current : Token

abbrev pub max_recursion_depth : ℕ
max_recursion_depth = 100

unfoldable pub advance : Parser → Parser
advance p = let (l, t) = next_token p.lexer in record { lexer = l; current = t }

-- Parser.error.
unfoldable pub fail {ℓ} : {A : Type ℓ} → Parser → Message → Result Failure A
fail p message = err (
    parse_error (record {
      pos = p.current.pos;
      message = message;
      context = context_line p.lexer.input p.current.pos;
    }))

abbrev pub is_rparen : TokenType → Bool
is_rparen rparen = true
is_rparen _ = false

abbrev pub is_lparen : TokenType → Bool
is_lparen lparen = true
is_lparen _ = false

abbrev pub is_comma : TokenType → Bool
is_comma comma = true
is_comma _ = false

abbrev pub is_ident : TokenType → Bool
is_ident ident = true
is_ident _ = false

abbrev pub is_end : TokenType → Bool
is_end eof = true
is_end _ = false

module _ (F : Library) where
  abbrev pub Expr : Type 0
  Expr = Expression F.Number

  abbrev pub Args : Type 0
  Args = Arguments F.Number

  -- What a parsing function returns: a tree and the parser behind it.
  abbrev pub Parsed : Type 0 → Type 0
  Parsed A = Result Failure (A × Parser)

  -- The loop over the arguments; `parse_one` is parseExpression one level down.
  unfoldable pub parse_arguments : (Parser → Parsed Expr) → ℕ → Parser → Parsed Args
  parse_arguments parse_one zero p = err out_of_rounds
  parse_arguments parse_one (suc rounds) p = do
    (arg, q) ← parse_one p
    let more = (do (args, r) ← parse_arguments parse_one rounds (advance q); ok (cons arg args, r))
    if is_comma q.current.type then more else ok (cons arg nil, q)

  -- expect(TokenRParen), behind the arguments.
  close_call : Position → Bytes → Args → Parser → Parsed Expr
  close_call pos name args p =
      if is_rparen p.current.type
      then ok (function_call pos name args, advance p)
      else fail p (expected_token rparen p.current.type)

  -- A bound on the tokens left to read.
  abbrev pub rounds_left : Parser → ℕ
  rounds_left p = suc (2 * length p.lexer.rest + 2)

  unfoldable pub parse_function_call : (Parser → Parsed Expr) → Parser → Parsed Expr
  unfolding close_call
  parse_function_call parse_one p =
      let name = p.current.value in
      let q = advance p in
      let inside = advance q in
      let call = (do
        (args, r) ← parse_arguments parse_one (rounds_left inside) inside
        close_call p.current.pos name args r) in
      if not (is_lparen q.current.type)
      then fail q (expected_paren name)
      else if is_rparen inside.current.type
      then close_call p.current.pos name nil inside
      else call

  unfoldable pub parse_variable : Parser → Parsed Expr
  parse_variable p =
      let q = advance p in
      if is_ident q.current.type
      then ok (variable p.current.pos q.current.value, advance q)
      else fail q expected_variable_name

  unfoldable pub parse_string : Parser → Parsed Expr
  parse_string p = ok (string_literal p.current.pos p.current.value false, advance p)

  unfoldable pub parse_number : Parser → Parsed Expr
  parse_number p = elim (parse_number_with_unit F p.current.value) [
    | err e ↦
        err (parse_error (record { pos = p.current.pos; message = bad_number e; context = [] }))
    | ok (value, unit) ↦ ok (number_literal p.current.pos value p.current.value unit, advance p)
  ]

  unfoldable pub parse_bool : Bool → Parser → Parsed Expr
  parse_bool b p = ok (bool_literal p.current.pos b, advance p)

  -- The switch of parseExpression.
  unfoldable pub parse_by_type : (Parser → Parsed Expr) → TokenType → Parser → Parsed Expr
  unfolding parse_function_call parse_variable parse_string parse_number parse_bool
  parse_by_type parse_one ident p = parse_function_call parse_one p
  parse_by_type parse_one at p = parse_variable p
  parse_by_type parse_one string p = parse_string p
  parse_by_type parse_one number p = parse_number p
  parse_by_type parse_one true_word p = parse_bool true p
  parse_by_type parse_one false_word p = parse_bool false p
  parse_by_type parse_one error p = fail p (lexical p.current.value)
  parse_by_type parse_one _ p = fail p (unexpected_token p.current.value)

  -- parseExpression, with `room` levels left below MaxRecursionDepth: `p.depth` is
  -- `max_recursion_depth - room` on entry.
  unfoldable pub parse_expression : ℕ → Parser → Parsed Expr
  unfolding parse_by_type
  parse_expression zero p = fail p too_deep
  parse_expression (suc room) p = parse_by_type (parse_expression room) p.current.type p

  -- Parser.Parse, on a parser that NewParser made.
  unfoldable pub parse_all : Parser → Result Failure Expr
  parse_all p = do
    (e, q) ← parse_expression max_recursion_depth p
    if is_end q.current.type then ok e else fail q (expected_end q.current.value)

  -- Parse: NewLexer and NewParser, which reads the first token, then Parser.Parse.
  unfoldable pub parse : Bytes → Result Failure Expr
  unfolding parse_all
  parse input = elim (new_lexer input) [
    | err size ↦ err (input_too_large size)
    | ok lexer ↦ parse_all (let (l, t) = next_token lexer in record { lexer = l; current = t })
  ]
