-- ===== src/Dsl/Library.antt =====
-- What the language takes from Go and does not implement: float64 with strconv's reading and fmt's
-- printing of it, and package regexp.
use microceph.Prelude.{ℕ, Bool, Option, Result}
use microceph.Dsl.Text.{Bytes}

pub record Library : Type 1 where
  pub Number : Type 0
  pub parse_float : Bytes → Option Number
  pub of_nat : ℕ → Number
  pub times : Number → Number → Number
  pub less : Number → Number → Bool
  pub equal : Number → Number → Bool
  pub format : Number → Bytes
  pub Regexp : Type 0
  pub compile : Bytes → Result Bytes Regexp
  pub match_string : Regexp → Bytes → Bool
