-- ===== src/Filter.antt =====
-- netreplay/core/display_filter.py: the display-filter language. Texts are lists of code points.
pub mod Syntax
pub mod Lexer
pub mod Parser
pub mod RoundTrip
pub mod Eval
mod Tests
