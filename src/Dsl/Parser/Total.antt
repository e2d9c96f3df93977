-- ===== src/Dsl/Parser/Total.antt =====
-- The termination of the parser and the depth of its trees: microceph/dsl/parser.go.
use microceph.Prelude.{
  ℕ, zero, suc, ◌≤◌, ◌<◌, Bool, true, false, not, ◌≡◌, refl, ap, ◌≢◌, inl, inr, if◌then◌else◌,
  Result, ok, err, ◌>>=◌, arith,
}
use microceph.Dsl.Text.{Bytes}
use microceph.Dsl.Token.{Position, TokenType, ident, number, string, true_word, false_word, at}
use microceph.Dsl.Lexer.{Lexer, new_lexer, next_token}
use microceph.Dsl.Lexer.Invariant.{IsWellFormed}
use microceph.Dsl.Lexer.Progress.{next_token-Ok, new_lexer-IsWellFormed}
use microceph.Dsl.Library.{Library}
use microceph.Dsl.Units.{UnitError, parse_number_with_unit}
use microceph.Dsl.Ast.{depth, depth_args, nil}
use microceph.Dsl.Parser.{
  Failure, out_of_rounds, Parser, advance, fail, is_rparen, is_lparen, is_comma, is_ident, is_end,
  Expr, Args, Parsed, parse_arguments, close_call, rounds_left, parse_function_call, parse_variable,
  parse_number, parse_by_type, parse_expression, parse_all, parse, max_recursion_depth,
}
use microceph.Dsl.Parser.Good.{
  ParserOk, left, is_end-eof, advance-ParserOk, advance-left, Good, parsed, refused, fail-Good,
  if_Good, Good-bind, not_end_of_ident, not_end_of_lparen, not_end_of_rparen, not_end_of_comma,
}

module _ (F : Library) (room : ℕ) where
  -- Trees that fit below the limit.
  abbrev Fits : Expr F → Type 0
  Fits e = depth e ≤ room

  abbrev FitsAll : Args F → Type 0
  FitsAll args = depth_args args ≤ room

  abbrev FitsAbove : Expr F → Type 0
  FitsAbove e = depth e ≤ suc room

  module _ (one : Parser → Parsed F (Expr F))
      (good : (p : Parser) → ParserOk p → Good Fits (left p) (one p)) where
    parse_arguments-Good :
        (rounds : ℕ) (p : Parser)
        → ParserOk p
        → left p < rounds
        → Good FitsAll (left p) (parse_arguments F one rounds p)
    unfolding parse_arguments depth_args
    parse_arguments-Good zero p o h = absurd (omega arith)
    parse_arguments-Good (suc rounds) p o h =
        Good-bind Fits FitsAll (left p) (left p) _ (good p o) λ arg q fits ok_q less.
          if_Good FitsAll (left p) (is_comma q.current.type)
            (λ comma'.
              let fewer = advance-left q ok_q (not_end_of_comma q.current.type comma') in
              Good-bind FitsAll FitsAll (left (advance q)) (left p) _
                (parse_arguments-Good rounds (advance q) (advance-ParserOk q ok_q) (omega arith))
                λ args r fit ok_r less'. parsed (omega arith) ok_r (omega arith))
            (λ _. parsed (omega arith) ok_q less)

    close_call-Good :
        (pos : Position) (name : Bytes) (args : Args F) (p : Parser) (b : ℕ)
        → FitsAll args
        → ParserOk p
        → left p < b
        → Good FitsAbove b (close_call F pos name args p)
    unfolding close_call depth
    close_call-Good pos name args p b fits o less =
        if_Good FitsAbove b (is_rparen p.current.type)
          (λ t.
            let fewer = advance-left p o (not_end_of_rparen p.current.type t) in
            parsed (omega arith) (advance-ParserOk p o) (omega arith))
          (λ _. fail-Good FitsAbove b p _)

    parse_function_call-Good :
        (p : Parser)
        → ParserOk p
        → is_end p.current.type ≡ false
        → Good FitsAbove (left p) (parse_function_call F one p)
    unfolding parse_function_call
    parse_function_call-Good p o start =
        let q = advance p in
        let inside = advance q in
        let ok_q = advance-ParserOk p o in
        let ok_inside = advance-ParserOk q ok_q in
        let fewer = advance-left p o start in
        if_Good FitsAbove (left p) (not (is_lparen q.current.type)) (λ _. fail-Good FitsAbove _ q _)
          (λ paren.
            let fewer' = advance-left q ok_q (not_end_of_lparen q.current.type (ground arith)) in
            if_Good FitsAbove (left p) (is_rparen inside.current.type)
              (λ _.
                close_call-Good p.current.pos p.current.value nil inside (left p)
                  (unfold depth_args in omega arith) ok_inside (omega arith))
              (λ _.
                Good-bind FitsAll FitsAbove (left inside) (left p) _
                  (parse_arguments-Good (rounds_left F inside) inside ok_inside (ground arith))
                  λ args r fits ok_r less.
                    close_call-Good p.current.pos p.current.value args r (left p) fits ok_r
                      (omega arith)))

  module _ (p : Parser) (o : ParserOk p) (start : is_end p.current.type ≡ false) where
    leaf : {e : Expr F} → depth e ≡ 1 → Good FitsAbove (left p) (ok (e, advance p))
    leaf d = parsed (omega arith) (advance-ParserOk p o) (advance-left p o start)

    parse_variable-Good : Good FitsAbove (left p) (parse_variable F p)
    unfolding parse_variable depth
    parse_variable-Good =
        let q = advance p in
        let ok_q = advance-ParserOk p o in
        let fewer = advance-left p o start in
        if_Good FitsAbove (left p) (is_ident q.current.type)
          (λ t.
            let fewer' = advance-left q ok_q (not_end_of_ident q.current.type t) in
            parsed (omega arith) (advance-ParserOk q ok_q) (omega arith))
          (λ _. fail-Good FitsAbove _ q _)

    parse_number-Good : Good FitsAbove (left p) (parse_number F p)
    unfolding parse_number depth
    parse_number-Good = go (parse_number_with_unit F p.current.value) refl
      where
        go :
            (r : Result UnitError (F.Number × Bytes))
            → parse_number_with_unit F p.current.value ≡ r
            → Good FitsAbove (left p) (parse_number F p)
        go (ok (v, u)) e = rw (e, parse_number) (leaf refl)
        go (err x) e = rw (e, parse_number) (refused (cc))

parse_by_type-Good :
    (F : Library) (room : ℕ) (one : Parser → Parsed F (Expr F))
    (good : (p : Parser) → ParserOk p → Good (Fits F room) (left p) (one p)) (t : TokenType)
    (p : Parser)
    → p.current.type ≡ t
    → ParserOk p
    → Good (FitsAbove F room) (left p) (parse_by_type F one t p)
unfolding parse_by_type depth
parse_by_type-Good F room one good ident p e o =
    parse_function_call-Good F room one good p o (ap is_end e)
parse_by_type-Good F room one good at p e o = parse_variable-Good F room p o (ap is_end e)
parse_by_type-Good F room one good string p e o = leaf F room p o (ap is_end e) refl
parse_by_type-Good F room one good number p e o = parse_number-Good F room p o (ap is_end e)
parse_by_type-Good F room one good true_word p e o = leaf F room p o (ap is_end e) refl
parse_by_type-Good F room one good false_word p e o = leaf F room p o (ap is_end e) refl
parse_by_type-Good F room one good _ p e o = fail-Good (FitsAbove F room) _ p _

parse_expression-Good :
    (F : Library) (room : ℕ) (p : Parser)
    → ParserOk p
    → Good (Fits F room) (left p) (parse_expression F room p)
unfolding parse_expression
parse_expression-Good F zero p o = fail-Good (Fits F 0) _ p _
parse_expression-Good F (suc room) p o =
    parse_by_type-Good F room (parse_expression F room) (parse_expression-Good F room)
      p.current.type p refl o

-- A whole parse: a tree that nests at most as deep as the limit, or an error of the program.
pub data Ends (F : Library) : Result Failure (Expr F) → Type 0 where
  tree : {e : Expr F} → depth e ≤ max_recursion_depth → Ends F (ok e)
  refusal : {x : Failure} → x ≢ out_of_rounds → Ends F (err x)

bind-Ends :
    (F : Library) (b : ℕ) {m : Parsed F (Expr F)} (f : Expr F × Parser → Result Failure (Expr F))
    → Good (Fits F max_recursion_depth) b m
    → ((e : Expr F) (q : Parser) → depth e ≤ max_recursion_depth → Ends F (f (e, q)))
    → Ends F (m >>= f)
bind-Ends F b f (parsed {a} {q} h o l) k = k a q h
bind-Ends F b f (refused n) k = refusal n

if_Ends :
    (F : Library) (b : Bool) {x y : Result Failure (Expr F)}
    → Ends F x
    → Ends F y
    → Ends F (if b then x else y)
if_Ends F true h k = h
if_Ends F false h k = k

parse_all-Ends : (F : Library) (p : Parser) → ParserOk p → Ends F (parse_all F p)
unfolding parse_all fail
parse_all-Ends F p o =
    bind-Ends F (left p) _ (parse_expression-Good F max_recursion_depth p o)
      λ e q h. if_Ends F (is_end q.current.type) (tree h) (refusal (cc))

first_token-ParserOk :
    (l : Lexer)
    → IsWellFormed l
    → ParserOk (let (m, t) = next_token l in record { lexer = m; current = t })
first_token-ParserOk l w =
    let (m, t) = next_token l in
    let (moves, r) = next_token-Ok l w in
    record {
      lexer_ok = moves.well_formed;
      ended = λ e. elim r [ inl (_, done) ↦ done | inr (more, _) ↦ cc (is_end-eof t.type) ];
    }

-- Every parse ends with a tree that nests no deeper than MaxRecursionDepth or with an error of the
-- program: the loop over a call's arguments is never cut off, whatever the input.
pub parse_total : (F : Library) (input : Bytes) → Ends F (parse F input)
unfolding parse
parse_total F input = go (new_lexer input) refl
  where
    go : (r : Result ℕ Lexer) → new_lexer input ≡ r → Ends F (parse F input)
    go (ok l) e =
        rw (e, parse)
          (parse_all-Ends F _ (first_token-ParserOk l (new_lexer-IsWellFormed input l e)))
    go (err n) e = rw (e, parse) (refusal (cc))
