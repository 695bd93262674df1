-- ===== src/Text/Line.antt =====
-- game_patch/my_string.h: `is_comment_or_empty`, `get_indent_level`, `trim`, `is_list_value`.

pub mod Trim
pub mod Bare
use mathlib.Core.List.{reverse}
use ps3_plugins.Base.{
  ℕ, suc, Bool, false, ◌||◌, none, some, List, [], ◌∷◌, ◌==◌, if◌then◌else◌, Bytes,
}
use ps3_plugins.CString.{isspace, skip_space, strchr, peek}

unfoldable pub is_comment_or_empty : Bytes → Bool
unfolding skip_space
is_comment_or_empty line = let p = skip_space line in peek p == b'#' || peek p == 0

unfoldable pub get_indent_level : Bytes → ℕ
get_indent_level [] = 0
get_indent_level (c ∷ s) = if c == b' ' then suc (get_indent_level s) else 0

-- `while (end > str && isspace(*end)) end--`, on the bytes before `end` read backwards; the first
-- byte of `str` is never given up.
unfoldable pub step_back : Bytes → Bytes
step_back [] = []
step_back (c ∷ []) = c ∷ []
step_back (c ∷ d ∷ s) = if isspace c then step_back (d ∷ s) else c ∷ d ∷ s

unfoldable pub trim : Bytes → Bytes
unfolding skip_space
trim str = let p = skip_space str in if peek p == 0 then p else reverse (step_back (reverse p))

-- After the first colon and blanks there is a bracket.
unfoldable pub is_list_value : Bytes → Bool
unfolding skip_space strchr
is_list_value str = elim (strchr str b':') [
  | none ↦ false
  | some p ↦ elim p [ [] ↦ false | c ∷ q ↦ peek (skip_space q) == b'[' ]
]
