-- ===== src/Dsl/Ast.antt =====
-- The syntax trees: microceph/dsl/ast.go. A number literal holds a value of the type `N`.
use microceph.Prelude.{ℕ, suc, max, Bool}
use microceph.Dsl.Text.{Bytes}
use microceph.Dsl.Token.{Position}

mutual
  pub data Expression (N : Type 0) : Type 0 where
    string_literal : Position → Bytes → Bool → Expression N
    number_literal : Position → N → Bytes → Bytes → Expression N
    bool_literal : Position → Bool → Expression N
    variable : Position → Bytes → Expression N
    function_call : Position → Bytes → Arguments N → Expression N

  pub data Arguments (N : Type 0) : Type 0 where
    nil : Arguments N
    cons : Expression N → Arguments N → Arguments N

-- Pos.
unfoldable pub position_of : {N : Type 0} → Expression N → Position
position_of (string_literal p _ _) = p
position_of (number_literal p _ _ _) = p
position_of (bool_literal p _) = p
position_of (variable p _) = p
position_of (function_call p _ _) = p

-- How deep calls nest: one for a leaf.
unfoldable mutual
  pub depth : {N : Type 0} → Expression N → ℕ
  depth (function_call _ _ args) = suc (depth_args args)
  depth (string_literal _ _ _) = 1
  depth (number_literal _ _ _ _) = 1
  depth (bool_literal _ _) = 1
  depth (variable _ _) = 1

  pub depth_args : {N : Type 0} → Arguments N → ℕ
  depth_args nil = 0
  depth_args (cons e args) = max (depth e) (depth_args args)

unfoldable pub count_args : {N : Type 0} → Arguments N → ℕ
count_args nil = 0
count_args (cons _ args) = suc (count_args args)
