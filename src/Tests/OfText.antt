-- ===== src/Tests/OfText.antt =====
-- game_patch/my_string.h and game_patch/lv2_stdio.h on given texts.
use ps3_plugins.Base.{◌+◌, ◌≤◌, ◌<◌, ◌≡◌, refl, List, [], ◌∷◌, arith, Bytes, codes, length, All}
use ps3_plugins.Tests.Checks.{avoids-All, all_below-All}
use ps3_plugins.Text.Line.{trim, get_indent_level}
use ps3_plugins.Text.Escape.{unescape_string}
use ps3_plugins.Text.Escape.Bounds.{Unescapes, unescape_string-Unescapes}
use ps3_plugins.Text.Escape.Quote.{quote}
use ps3_plugins.Text.Quoted.{parse_quoted_string}
use ps3_plugins.Text.Items.{items_loop, parse_string_list, parse_patch_entry, max_patch_params}
use ps3_plugins.Text.Items.Fuel.{Stores, items_loop-Stores}
use ps3_plugins.Text.Items.RoundTrip.{list_line, parse_string_list-list_line}
use ps3_plugins.Text.Items.Brackets.{IsListable}
use ps3_plugins.Number.{digit_in, digit_value}
use ps3_plugins.Number.Digits.{IsDigits}

abbrev padded : Bytes
padded = codes " \t- app: x \n"

trim-padded : trim padded ≡ codes "- app: x"
unfolding trim ps3_plugins.CString.isspace ps3_plugins.Text.Line.step_back
trim-padded = refl

get_indent_level-padded : get_indent_level (codes "    a") ≡ 4
unfolding get_indent_level
get_indent_level-padded = refl

unescape_string-escapes : unescape_string (codes "a\\n\\x41\\101") ≡ codes "a\nAA"
unfolding unescape_string
unescape_string-escapes = refl

parse_string_list-mixed :
    parse_string_list (codes "app_ver: [ \"01.00\", \"02.00\" , ]") 16
    ≡ codes "01.00" ∷ codes "02.00" ∷ []
unfolding parse_string_list ps3_plugins.CString.isspace parse_quoted_string
parse_string_list-mixed = refl

-- An item that ends in an escaped backslash takes the quotation mark in front of the next one for its
-- end; what is left of the text is no item.
parse_string_list-backslash : parse_string_list (codes "[ \"a\\\\\", \"b\" ]") 16 ≡ codes "a\\" ∷ []
unfolding parse_string_list ps3_plugins.CString.isspace parse_quoted_string
parse_string_list-backslash = refl

abbrev escaped : Bytes
escaped = codes "a\\x41"

unescape_string-Unescapes_example :
    Unescapes escaped (unescape_string escaped)
    × (length (unescape_string escaped) + 1 ≤ length escaped + 1)
    × All (λ c. c < 256) (unescape_string escaped)
unescape_string-Unescapes_example =
    unescape_string-Unescapes escaped (all_below-All 256 escaped refl)

abbrev mixed : Bytes
mixed = codes " \"a\", b, \"c\""

items_loop-Stores_example :
    Stores 3 mixed (items_loop 12 3 mixed) × (length (items_loop 12 3 mixed) ≤ 3)
items_loop-Stores_example = items_loop-Stores 12 3 mixed (omega arith)

abbrev versions : List Bytes
versions = codes "01.00" ∷ codes "a\"b" ∷ []

versions-IsListable : All IsListable versions
versions-IsListable = (
  (avoids-All 0 (codes "01.00") refl, omega arith),
  ((avoids-All 0 (codes "a\"b") refl, omega arith), tt),
)

parse_string_list-list_line_example :
    (parse_string_list (list_line (codes "app_ver: ") versions (codes " # x")) 1
      ≡ codes "01.00" ∷ [])
    × (parse_patch_entry (list_line (codes "app_ver: ") versions (codes " # x")) ≡ versions)
unfolding ps3_plugins.Text.Items.Brackets.items_text quote
parse_string_list-list_line_example =
    parse_string_list-list_line (codes "app_ver: ") versions (codes " # x") 1
      (avoids-All 91 (codes "app_ver: ") refl) versions-IsListable (omega arith)

decimal-IsDigits : IsDigits 10 (codes "120")
unfolding digit_in digit_value
decimal-IsDigits = ((λ e. cc e), ((λ e. cc e), ((λ e. cc e), tt)))

hex-IsDigits : IsDigits 16 (codes "fF")
unfolding digit_in digit_value
hex-IsDigits = ((λ e. cc e), ((λ e. cc e), tt))
