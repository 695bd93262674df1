-- ===== src/Bin2c.antt =====
-- bin2c/bin2c.c: a file as the text of a C array. The two files are parameters: the content of the
-- input, where it opens, and whether the output opens.
pub mod Reading
use ps3_plugins.Base.{
  ℕ, zero, suc, ◌+◌, ◌-◌, Bool, true, false, Option, none, some, List, [], ◌∷◌, ◌++◌, ltb, leb,
  if◌then◌else◌, Bytes, codes, same, length,
}
use ps3_plugins.Hex.{hex_digits}

-- `useconst` and `zeroterminated`
pub record Options : Type 0 where
  pub use_const : Bool
  pub zero_terminated : Bool

-- `myfgetc`: the byte, the rest of the file and the flag; `none` is EOF.
unfoldable pub my_fgetc : Bytes → Bool → Option (ℕ × Bytes × Bool)
my_fgetc (c ∷ rest) zero_terminated = some (c, rest, zero_terminated)
my_fgetc [] true = some (0, [], false)
my_fgetc [] false = none

-- The loop of `process`, from a column; the fuel is one more than the bytes that it can print.
unfoldable pub print_items : ℕ → Bytes → Bool → ℕ → Bytes
unfolding my_fgetc hex_digits
print_items zero input zero_terminated col = []
print_items (suc fuel) input zero_terminated col = elim (my_fgetc input zero_terminated) [
  | none ↦ []
  | some (c, rest, zero_terminated') ↦
      (if leb (78 - 6) col then 10 ∷ [] else [])
      ++ (codes "0x" ++ hex_digits 2 c ++ codes ", ")
      ++ print_items fuel rest zero_terminated' ((if leb (78 - 6) col then 1 else col) + 6)
]

abbrev pub heading : Options → Bytes → Bytes
heading o char_name =
    codes "// clang-format off"
    ++ (10 ∷ [])
    ++ codes "static "
    ++ (if o.use_const then codes "const " else [])
    ++ codes "unsigned char "
    ++ char_name
    ++ codes "[] = {"
    ++ (10 ∷ [])

abbrev pub ending : Bytes
ending = (10 ∷ []) ++ codes "};" ++ (10 ∷ []) ++ codes "// clang-format on" ++ (10 ∷ [])

abbrev pub items : Options → Bytes → Bytes
items o input = print_items (length input + 2) input o.zero_terminated 1

-- How the program ends: `exit(1)`, or with the text of the output file.
pub data Outcome : Type 0 where
  exit_one : Outcome
  written : Bytes → Outcome

unfoldable pub process : Options → Option Bytes → Bool → Bytes → Outcome
unfolding print_items
process o none opens char_name = exit_one
process o (some input) opens char_name =
    if opens then written (heading o char_name ++ items o input ++ ending) else exit_one

-- The loop of `main` over the arguments behind the name of the program; `none` is `usage`.
unfoldable pub parse_options : Options → List Bytes → Option (Options × List Bytes)
parse_options o [] = some (o, [])
parse_options o (arg ∷ args) =
    let known =
      (if same arg (codes "-c")
        then some (record o { use_const = true })
        else if same arg (codes "-z")
        then some (record o { zero_terminated = true })
        else if same arg (codes "-cz")
        then some (record { use_const = true; zero_terminated = true })
        else none) in
    elim (ltb 4 (length (arg ∷ args) + 1)) [
      | false ↦ some (o, arg ∷ args)
      | true ↦ elim known [ none ↦ none | some o' ↦ parse_options o' args ]
    ]

-- `main`: the files are functions of their names.
unfoldable pub main : (Bytes → Option Bytes) → (Bytes → Bool) → List Bytes → Outcome
unfolding parse_options process
main inputs outputs args =
    elim (parse_options (record { use_const = false; zero_terminated = false }) args) [
      | some (o, input ∷ output ∷ symbol ∷ []) ↦ process o (inputs input) (outputs output) symbol
      | _ ↦ exit_one
    ]
