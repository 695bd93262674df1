-- ===== src/CString.antt =====
-- The C string functions that the program brings along (game_patch/lv2_stdio.h). A `const char*` is
-- the list of its bytes before the terminating NUL; a pointer into it is the rest of the list.
use ps3_plugins.Base.{
  ℕ, Bool, true, false, ◌&&◌, ◌||◌, Option, none, some, [], ◌∷◌, leb, ◌==◌, if◌then◌else◌, Bytes,
}

-- `isspace`: blank, \n, \t, \r, \f, \v.
unfoldable pub isspace : ℕ → Bool
isspace c = c == b' ' || c == b'\n' || c == b'\t' || c == b'\r' || c == 12 || c == 11

unfoldable pub isdigit : ℕ → Bool
isdigit c = leb b'0' c && leb c b'9'

-- `*p`: the byte under a pointer, NUL at the end of the string.
abbrev pub peek : Bytes → ℕ
peek [] = 0
peek (c ∷ s) = c

-- `while (*p && isspace(*p)) p++`
unfoldable pub skip_space : Bytes → Bytes
skip_space [] = []
skip_space (c ∷ s) = if isspace c then skip_space s else c ∷ s

-- `strncmp(s, prefix, strlen(prefix)) == 0`
unfoldable pub has_prefix : Bytes → Bytes → Bool
has_prefix [] s = true
has_prefix (c ∷ prefix) [] = false
has_prefix (c ∷ prefix) (d ∷ s) = c == d && has_prefix prefix s

-- `strstr`, as lv2_stdio.h writes it: an empty text holds nothing.
unfoldable pub strstr : Bytes → Bytes → Option Bytes
strstr [] needle = none
strstr (c ∷ s) needle = if has_prefix needle (c ∷ s) then some (c ∷ s) else strstr s needle

-- `strchr` for a byte that is not NUL.
unfoldable pub strchr : Bytes → ℕ → Option Bytes
strchr [] b = none
strchr (c ∷ s) b = if c == b then some (c ∷ s) else strchr s b
