-- ===== src/Sql.antt =====
-- duckvis/attach.rs: the text of SQL statements and of ATTACH.
pub mod Lexer
pub mod Comments
pub mod Keyword
pub mod Scan
pub mod Tokens
pub mod Constructs
pub mod Attach
pub mod Ascii
pub mod Syntax
pub mod Quoting
