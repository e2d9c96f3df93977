-- ===== src/Dsl/Token.antt =====
-- Positions and tokens: microceph/dsl/errors.go and microceph/dsl/lexer.go.
use microceph.Prelude.{ℕ}
use microceph.Dsl.Text.{Bytes, codes}

pub record Position : Type 0 where
  pub line : ℕ
  pub column : ℕ
  pub offset : ℕ

pub data TokenType : Type 0 where
  eof ident number string true_word false_word at lparen rparen comma error : TokenType

-- TokenType.String.
unfoldable pub token_name : TokenType → Bytes
token_name eof = codes "EOF"
token_name ident = codes "IDENT"
token_name number = codes "NUMBER"
token_name string = codes "STRING"
token_name true_word = codes "TRUE"
token_name false_word = codes "FALSE"
token_name at = codes "@"
token_name lparen = codes "("
token_name rparen = codes ")"
token_name comma = codes ","
token_name error = codes "ERROR"

pub record Token : Type 0 where
  pub type : TokenType
  pub value : Bytes
  pub pos : Position
