-- ===== src/Lexer.antt =====
-- compiler/lexer.go
pub mod Token
pub mod Cursor
pub mod Position
pub mod Dedent
pub mod Scan
pub mod Next
pub mod Loops
pub mod Readers
pub mod Progress
pub mod Gaps
pub mod Tokens
pub mod Ending
pub mod Keywords
pub mod Ahead
pub mod Literals
pub mod Cases
mod Tests
