-- ===== src/Dsl.antt =====
-- The device matching language: microceph/dsl.
pub mod Text
pub mod Token
pub mod Lexer
pub mod Library
pub mod Units
pub mod Ast
pub mod Parser
pub mod Device
pub mod Value
pub mod Eval
pub mod Match
