-- ===== src/Sql/Parser.antt =====
-- `Parser` of src/compiler/sql_expr_parser.cpp.
pub mod Tokens
pub mod Grammar
unfoldable pub use Tokens.*
unfoldable pub use Grammar.*
