-- ===== src/Text/Quoted.antt =====
-- game_patch/my_string.h: `parse_quoted_string`.
pub mod RoundTrip
use ps3_plugins.Base.{ℕ, true, false, Option, none, some, [], ◌∷◌, ◌==◌, if◌then◌else◌, Bytes}
use ps3_plugins.CString.{strchr, peek}
use ps3_plugins.Text.Escape.{backslash, quote_mark, unescape_string, c_string}

-- Two pointers into one string, `start` and `end`: the bytes between them, and the text at `end`.
pub record Span : Type 0 where
  pub between : Bytes
  pub at_end : Bytes

abbrev pub behind : ℕ → Span → Span
behind c p = record { between = c ∷ p.between; at_end = p.at_end }

-- `end` runs from `start` to the first quotation mark with no backslash in front, or to the NUL.
unfoldable pub scan_to_quote : Bytes → Span
scan_to_quote [] = record { between = []; at_end = [] }
scan_to_quote (c ∷ []) =
    if c == quote_mark
    then record { between = []; at_end = c ∷ [] }
    else record { between = c ∷ []; at_end = [] }
scan_to_quote (c ∷ d ∷ s) = elim (c == backslash) [
  | true ↦ behind c (behind d (scan_to_quote s))
  | false ↦ elim (c == quote_mark) [
    | true ↦ record { between = []; at_end = c ∷ d ∷ s }
    | false ↦ behind c (scan_to_quote (d ∷ s))
  ]
]

-- `none` is NULL. The result is read as a C string by every caller.
unfoldable pub parse_quoted_string : Bytes → Option Bytes
unfolding strchr scan_to_quote unescape_string c_string
parse_quoted_string str = elim (strchr str quote_mark) [
  | none ↦ none
  | some p ↦ elim p [
    | [] ↦ none
    | c ∷ start ↦
        let span = scan_to_quote start in
        if peek span.at_end == quote_mark
        then some (c_string (unescape_string span.between))
        else none
  ]
]
