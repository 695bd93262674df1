-- ===== src/Text/Items.antt =====
-- game_patch/my_string.h `parse_string_list`, and game_patch/patch.c `parse_patch_entry`, which
-- repeats its text: bracketed lists of quoted strings.
pub mod Fuel
pub mod RoundTrip
pub mod Brackets
use ps3_plugins.Base.{
  ℕ, zero, suc, Bool, true, false, not, ◌&&◌, Option, none, some, List, [], ◌∷◌, ◌++◌, ◌==◌,
  if◌then◌else◌, Bytes, length, take, drop,
}
use ps3_plugins.CString.{strchr, peek, skip_space}
use ps3_plugins.Text.Escape.{backslash, quote_mark}
use ps3_plugins.Text.Quoted.{Span, behind, parse_quoted_string}

-- MAX_LINE_LENGTH of shared/macros.h.
abbrev pub max_line_length : ℕ
max_line_length = 1024

-- MAX_PATCH_PARAMS of game_patch/patch.h.
abbrev pub max_patch_params : ℕ
max_patch_params = 8

abbrev pub open_bracket : ℕ
open_bracket = b'['

abbrev pub close_bracket : ℕ
close_bracket = b']'

-- The quotation state behind the byte `c`, where it is not skipped as an escape.
abbrev pub toggled : Bool → ℕ → Bool
toggled in_quote c = if c == quote_mark then not in_quote else in_quote

-- `end` runs to the first closing bracket outside quotation marks, or to the NUL.
unfoldable pub scan_to_bracket : Bool → Bytes → Span
scan_to_bracket in_quote [] = record { between = []; at_end = [] }
scan_to_bracket in_quote (c ∷ []) =
    if not (toggled in_quote c) && c == close_bracket
    then record { between = []; at_end = c ∷ [] }
    else record { between = c ∷ []; at_end = [] }
scan_to_bracket in_quote (c ∷ d ∷ s) = elim (c == backslash) [
  | true ↦ behind c (behind d (scan_to_bracket in_quote s))
  | false ↦ elim (not (toggled in_quote c) && c == close_bracket) [
    | true ↦ record { between = []; at_end = c ∷ d ∷ s }
    | false ↦ behind c (scan_to_bracket (toggled in_quote c) (d ∷ s))
  ]
]

-- `pos` runs from behind an opening quotation mark to the closing one: the first quotation mark
-- whose byte in front, `prev`, is no backslash.
unfoldable pub scan_item : ℕ → Bytes → Span
scan_item prev [] = record { between = []; at_end = [] }
scan_item prev (c ∷ []) =
    if c == quote_mark && not (prev == backslash)
    then record { between = []; at_end = c ∷ [] }
    else record { between = c ∷ []; at_end = [] }
scan_item prev (c ∷ d ∷ s) = elim (c == quote_mark && not (prev == backslash)) [
  | true ↦ record { between = []; at_end = c ∷ d ∷ s }
  | false ↦ elim (c == backslash) [
    | true ↦ behind c (behind d (scan_item d s))
    | false ↦ behind c (scan_item c (d ∷ s))
  ]
]

-- What a round finds at `pos`, and where it leaves `pos`.
pub record Item : Type 0 where
  pub value : Option Bytes
  pub pos : Bytes

unfoldable pub read_item : Bytes → Item
unfolding scan_item
read_item [] = record { value = none; pos = [] }
read_item (c ∷ s) =
    if c == quote_mark
    then (let span = scan_item c s in
        if peek span.at_end == quote_mark
        then record {
          value = parse_quoted_string (quote_mark ∷ (span.between ++ quote_mark ∷ []));
          pos = drop 1 span.at_end;
        }
        else record { value = none; pos = span.at_end })
    else record { value = none; pos = c ∷ s }

-- `while (*pos && *pos != ',') pos++; if (*pos == ',') pos++;`
unfoldable pub after_comma : Bytes → Bytes
after_comma [] = []
after_comma (c ∷ s) = if c == b',' then s else after_comma s

-- One round of the loop: `none` where only blanks are left, and else the item, with the place of
-- the next round.
unfoldable pub next_item : Bytes → Option Item
unfolding skip_space read_item after_comma
next_item s = elim (skip_space s) [
  | [] ↦ none
  | d ∷ t ↦
      let item = read_item (d ∷ t) in
      some (record { value = item.value; pos = after_comma item.pos })
]

-- `while (*pos && count < max_items)`, with the number of items that still fit. A round passes at
-- least one byte, so that the length of the text is fuel enough.
unfoldable pub items_loop : ℕ → ℕ → Bytes → List Bytes
unfolding next_item
items_loop zero room pos = []
items_loop (suc fuel) room [] = []
items_loop (suc fuel) zero (c ∷ s) = []
items_loop (suc fuel) (suc room) (c ∷ s) = elim (next_item (c ∷ s)) [
  | none ↦ []
  | some item ↦ elim item.value [
    | none ↦ items_loop fuel (suc room) item.pos
    | some x ↦ x ∷ items_loop fuel room item.pos
  ]
]

-- The items of the text that `start` points to, where it ends at its bracket.
unfoldable pub span_items : ℕ → Span → List Bytes
unfolding items_loop
span_items room span =
    if peek span.at_end == close_bracket
    then items_loop (length span.between) room span.between
    else []

-- Both functions work on a copy of at most MAX_LINE_LENGTH bytes.
unfoldable pub buffer_items : ℕ → Bytes → List Bytes
unfolding strchr scan_to_bracket span_items
buffer_items room buffer = elim (strchr buffer open_bracket) [
  | none ↦ []
  | some p ↦ span_items room (scan_to_bracket false (drop 1 p))
]

-- The items stored in `output`; their number is the result.
unfoldable pub parse_string_list : Bytes → ℕ → List Bytes
unfolding buffer_items
parse_string_list str max_items = buffer_items max_items (take max_line_length str)

-- The parameters stored in `entry`; their number is the result.
unfoldable pub parse_patch_entry : Bytes → List Bytes
unfolding buffer_items
parse_patch_entry str = buffer_items max_patch_params (take max_line_length str)
