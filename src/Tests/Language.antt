-- ===== src/Tests/Language.antt =====
-- The language on a disk, with numbers for float64 and texts for compiled patterns.
use microceph.Prelude.{
  ℕ, ◌+◌, ◌-◌, ◌*◌, [], ◌∷◌, ◌++◌, true, false, Option, none, some, ◌≡◌, refl, ◌≢◌, ◌==◌, nat_eq,
  ltb, if◌then◌else◌, ok,
}
use microceph.Dsl.Text.{Bytes, codes, bytes_eq, same_bytes, lower, to_lower, is_digit, has_prefix}
use microceph.Dsl.Token.{Position}
use microceph.Dsl.Lexer.{Lexer, new_lexer, next_token, current_pos, sees}
use microceph.Dsl.Lexer.Progress.{NextTokenOk, next_token-Ok, new_lexer-IsWellFormed}
use microceph.Dsl.Lexer.Strings.{
  quote_raw, escape, ReadsString, next_token-quote_raw, next_token-escape,
}
use microceph.Dsl.Library.{Library}
use microceph.Dsl.Ast.{
  Expression, string_literal, number_literal, variable, function_call, nil, cons,
}
use microceph.Dsl.Parser.{parse}
use microceph.Dsl.Parser.Total.{Ends, parse_total}
use microceph.Dsl.Device.{Disk, DeviceContext, new_device_context}
use microceph.Dsl.Value.{number_value, resolve_variable, truth, values_equal, text_of}
use microceph.Dsl.Eval.{
  eq, gt, le, conjunction, disjunction, negation, membership, comparison, function_named,
  unknown_variable, eval, eval_variable,
}
use microceph.Dsl.Match.{is_one_of, is_known_function, is_known_variable, validate, match_devices}
use microceph.Dsl.Match.Known.{NamesKnown}
use microceph.Dsl.Match.Sound.{validate_sound}
use microceph.Dsl.Match.Devices.{Reported, match_devices-Reported}
use microceph.Dsl.Match.Case.{validate-upper_case}

read_digits : ℕ → Bytes → Option ℕ
read_digits n [] = some n
read_digits n (c ∷ cs) =
    let more = read_digits (10 * n + (c - b'0')) cs in if is_digit c then more else none

abbrev library : Library
library = record {
  Number = ℕ;
  parse_float = read_digits 0;
  of_nat = λ n. n;
  times = λ m n. m * n;
  less = ltb;
  equal = λ m n. m == n;
  format = λ n. [];
  Regexp = Bytes;
  compile = λ pattern. ok pattern;
  match_string = λ re text. has_prefix text re;
}

abbrev disk : Disk
disk = record {
  id = codes "sdb";
  type = codes "ssd";
  model = codes "Samsung_980";
  size = 200;
  device_id = [];
  device_path = [];
  read_only = false;
  partitions = [];
}

abbrev context : DeviceContext
context = record {
  disk = disk;
  hostname = codes "node";
  path = codes "/dev/sdb";
  dev_node = codes "/dev/sdb";
}

abbrev start : Position
start = record { line = 1; column = 1; offset = 0 }

abbrev type_is_ssd : Expression ℕ
type_is_ssd =
    function_call start (codes "eq")
      (cons (variable start (codes "type")) (cons (string_literal start (codes "SSD") false) nil))

abbrev size_of_disk : Expression ℕ
size_of_disk = variable start (codes "size")

abbrev limit : Expression ℕ
limit = number_literal start 100 (codes "100") []

abbrev lexer : Bytes → Lexer
lexer text = record { input = text; rest = text; pos = 0; line = 1; column = 1; start = 0 }

parse_total_example : Ends library (parse library (codes "and(eq(@type, 'ssd'), gt(@size, 100))"))
parse_total_example = parse_total library (codes "and(eq(@type, 'ssd'), gt(@size, 100))")

next_token-Ok_example : NextTokenOk (lexer (codes " eq(")) (next_token (lexer (codes " eq(")))
next_token-Ok_example =
    next_token-Ok (lexer (codes " eq("))
      (new_lexer-IsWellFormed (codes " eq(") (lexer (codes " eq(")) (unfold new_lexer in refl))

abbrev raw_text : Bytes
raw_text = b'\'' ∷ (quote_raw (codes "it's") ++ b'\'' ∷ codes ")")

next_token-quote_raw_example :
    ReadsString
      (current_pos (lexer raw_text))
      (codes "it's")
      (codes ")")
      (next_token (lexer raw_text))
next_token-quote_raw_example =
    next_token-quote_raw (codes "it's") (codes ")") (lexer raw_text) (unfold sees in refl) refl

abbrev escaped_text : Bytes
escaped_text = b'"' ∷ (escape (codes "a\\b\n") ++ b'"' ∷ codes ")")

next_token-escape_example :
    ReadsString
      (current_pos (lexer escaped_text))
      (codes "a\\b\n")
      (codes ")")
      (next_token (lexer escaped_text))
next_token-escape_example = next_token-escape (codes "a\\b\n") (codes ")") (lexer escaped_text) refl

type_is_ssd_valid : validate type_is_ssd ≡ none
unfolding validate is_known_function is_known_variable is_one_of lower same_bytes
type_is_ssd_valid = refl

validate_sound_example : NamesKnown library context (eval library context type_is_ssd)
validate_sound_example = validate_sound library context type_is_ssd type_is_ssd_valid

named_not : function_named (codes "not") ≡ some negation
unfolding function_named lower same_bytes
named_not = refl

named_and : function_named (codes "and") ≡ some conjunction
unfolding function_named lower same_bytes
named_and = refl

named_or : function_named (codes "OR") ≡ some disjunction
unfolding function_named lower same_bytes
named_or = refl

named_in : function_named (codes "in") ≡ some membership
unfolding function_named lower same_bytes
named_in = refl

named_eq : function_named (codes "eq") ≡ some (comparison eq)
unfolding function_named lower same_bytes
named_eq = refl

named_gt : function_named (codes "gt") ≡ some (comparison gt)
unfolding function_named lower same_bytes
named_gt = refl

named_le : function_named (codes "le") ≡ some (comparison le)
unfolding function_named lower same_bytes
named_le = refl

abbrev ssd : Expression ℕ
ssd = string_literal start (codes "ssd") false

abbrev sata_disk : Disk
sata_disk = record disk { type = codes "sata" }

matched_ssd :
    match_devices library type_is_ssd (codes "node") (sata_disk ∷ disk ∷ []) ≡ ok (disk ∷ [])
unfolding match_devices eval function_named same_bytes lower resolve_variable truth values_equal
    text_of new_device_context
matched_ssd = refl

match_devices-Reported_example :
    Reported library type_is_ssd
      (codes "node")
      (sata_disk ∷ disk ∷ [])
      (match_devices library type_is_ssd (codes "node") (sata_disk ∷ disk ∷ []))
match_devices-Reported_example =
    match_devices-Reported library type_is_ssd (codes "node") (sata_disk ∷ disk ∷ [])

size_resolves : eval library context (variable start (codes "SIZE")) ≡ ok (number_value 200)
unfolding eval eval_variable resolve_variable lower same_bytes
size_resolves = refl

differ : (false ≡ true) → ⊥
differ h = cc

size_upper : to_lower (codes "SIZE") ≢ codes "SIZE"
unfolding lower same_bytes
size_upper e = differ ((bytes_eq.beq_iff (to_lower (codes "SIZE")) (codes "SIZE")).1 e)

validate-upper_case_example :
    validate {N = ℕ} (variable start (codes "SIZE")) ≡ some (unknown_variable start (codes "@SIZE"))
validate-upper_case_example =
    validate-upper_case library context start (codes "SIZE") (number_value 200) size_resolves
      size_upper
