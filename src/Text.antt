-- ===== src/Text.antt =====
-- game_patch/my_string.h: lines, escapes, quoted strings and bracketed lists of them.
pub mod Line
pub mod Escape
pub mod Quoted
pub mod Items
