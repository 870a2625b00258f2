-- ===== src/Parser.antt =====
-- compiler/parser.go and the other files of the parser
pub mod Ast
pub mod State
pub mod Types
pub mod Tables
pub mod Lists
pub mod Entries
pub mod Operators
pub mod Operands
pub mod Expr
pub mod Control
pub mod Decls
pub mod TypeDecls
pub mod Imports
pub mod Simple
pub mod Services
pub mod Schemas
pub mod Routes
pub mod Modules
pub mod Dispatch
pub mod Program
pub mod Grammar
pub mod Reads
pub mod Loop
pub mod RoundTrip
pub mod Recovery
mod Tests
