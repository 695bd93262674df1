-- ===== src/Text/Items/Fuel.antt =====
-- The fuel of the loop of `parse_string_list`, and the number of items that it stores.
use ps3_plugins.Base.{
  ℕ, zero, suc, ◌≤◌, ◌≡◌, refl, ap, ◌∙◌, inl, inr, false, Option, none, some, List, [], ◌∷◌, arith,
  Bytes, length, take, drop, length-drop, Option-cases,
}
use ps3_plugins.CString.{strchr, skip_space}
use ps3_plugins.Text.Items.{
  max_line_length, scan_item, next_item, read_item, after_comma, items_loop, buffer_items,
  parse_string_list, parse_patch_entry, max_patch_params, Item, scan_to_bracket, open_bracket,
}

skip_space-length : (s : Bytes) → length (skip_space s) ≤ length s
unfolding skip_space
skip_space-length [] = omega arith
skip_space-length (c ∷ s) = ground (arith, skip_space-length s)

scan_item-length : (prev : ℕ) (s : Bytes) → length (scan_item prev s).at_end ≤ length s
unfolding scan_item
scan_item-length prev [] = omega arith
scan_item-length prev (c ∷ []) = ground arith
scan_item-length prev (c ∷ d ∷ s) = ground (arith, scan_item-length d s, scan_item-length c (d ∷ s))

after_comma-length : (c : ℕ) (s : Bytes) → length (after_comma (c ∷ s)) ≤ length s
unfolding after_comma
after_comma-length c [] = ground arith
after_comma-length c (d ∷ s) = ground (arith, after_comma-length d s)

after_comma-le : (s : Bytes) → length (after_comma s) ≤ length s
unfolding after_comma
after_comma-le [] = omega arith
after_comma-le (c ∷ s) = omega (arith, after_comma-length c s)

-- A round passes at least one byte.
read_item-length : (c : ℕ) (s : Bytes) → length (after_comma (read_item (c ∷ s)).pos) ≤ length s
unfolding read_item
read_item-length c s = ground (
  arith,
  after_comma-length c s,
  scan_item-length c s,
  length-drop 1 (scan_item c s).at_end,
  after_comma-le (scan_item c s).at_end,
  after_comma-le (drop 1 (scan_item c s).at_end),
)

pub next_item-length :
    (c : ℕ) (s : Bytes) (item : Item) → next_item (c ∷ s) ≡ some item → length item.pos ≤ length s
unfolding next_item
next_item-length c s item h = by_rest (skip_space (c ∷ s)) refl
  where
    by_rest : (r : Bytes) → skip_space (c ∷ s) ≡ r → length item.pos ≤ length s
    by_rest [] e = cc (rw (e, next_item) at h)
    by_rest (d ∷ t) e =
        let found = rw (e, next_item) at h in
        ground (arith, skip_space-length (c ∷ s), read_item-length d t, ap length e, found)

-- The loop as a relation, without fuel: with `room` places left, from a place of the text, it stores
-- these items. It ends at the end of the text, where no place is left, or where only blanks are
-- left. A loop that does not end is in no such relation.
pub data Stores : ℕ → Bytes → List Bytes → Type 0 where
  text_ends : {room : ℕ} → Stores room [] []
  array_full : {c : ℕ} {s : Bytes} → Stores 0 (c ∷ s) []
  blanks : {room c : ℕ} {s : Bytes} → next_item (c ∷ s) ≡ none → Stores (suc room) (c ∷ s) []
  skips :
      {room c : ℕ} {s pos : Bytes} {items : List Bytes}
      → next_item (c ∷ s) ≡ some (record { value = none; pos = pos })
      → Stores (suc room) pos items
      → Stores (suc room) (c ∷ s) items
  stores :
      {room c : ℕ} {s pos x : Bytes} {items : List Bytes}
      → next_item (c ∷ s) ≡ some (record { value = some x; pos = pos })
      → Stores room pos items
      → Stores (suc room) (c ∷ s) (x ∷ items)

item_eq :
    (item : Item) (v : Option Bytes) → item.value ≡ v → item ≡ record { value = v; pos = item.pos }
item_eq item v e = λ i. record { value = e i; pos = item.pos }

rounds-Stores : (f room : ℕ) (s : Bytes) → length s ≤ f → Stores room s (items_loop f room s)
unfolding items_loop
rounds-Stores zero room [] h = text_ends
rounds-Stores zero room (c ∷ s) h = absurd (omega arith)
rounds-Stores (suc f) room [] h = text_ends
rounds-Stores (suc f) zero (c ∷ s) h = array_full
rounds-Stores (suc f) (suc room) (c ∷ s) h = elim (Option-cases (next_item (c ∷ s))) [
  | inl e ↦ rw (e, items_loop) (blanks e)
  | inr (item, e) ↦
      let shorter = next_item-length c s item e in
      elim (Option-cases item.value) [
        | inl v ↦
            rw (e, items_loop, v)
              (skips (e ∙ ap some (item_eq item none v))
                (rounds-Stores f (suc room) item.pos (omega arith)))
        | inr (x, v) ↦
            rw (e, items_loop, v)
              (stores (e ∙ ap some (item_eq item (some x) v))
                (rounds-Stores f room item.pos (omega arith)))
      ]
]

items_loop-length : (f room : ℕ) (s : Bytes) → length (items_loop f room s) ≤ room
unfolding items_loop
items_loop-length zero room s = omega arith
items_loop-length (suc f) room [] = omega arith
items_loop-length (suc f) zero (c ∷ s) = omega arith
items_loop-length (suc f) (suc room) (c ∷ s) = elim (Option-cases (next_item (c ∷ s))) [
  | inl e ↦ rw (e, items_loop) (omega arith)
  | inr (item, e) ↦
      ground (arith, items_loop-length f room item.pos, items_loop-length f (suc room) item.pos)
]

-- The loop over the items of a list ends for every text, and what the model gives for the length of
-- the text as fuel, or more, is what its rounds have stored, never more than its array has places.
pub items_loop-Stores :
    (f room : ℕ) (s : Bytes)
    → length s ≤ f
    → Stores room s (items_loop f room s) × (length (items_loop f room s) ≤ room)
items_loop-Stores f room s h = (rounds-Stores f room s h, items_loop-length f room s)

buffer_items-length : (room : ℕ) (s : Bytes) → length (buffer_items room s) ≤ room
unfolding buffer_items
buffer_items-length room s = elim (Option-cases (strchr s open_bracket)) [
  | inl e ↦ rw (e, buffer_items) (omega arith)
  | inr (p, e) ↦
      rw (e, buffer_items)
        (let span = scan_to_bracket false (drop 1 p) in
          ground (arith, items_loop-length (length span.between) room span.between))
]

-- Neither function stores more items than its array has places.
pub parse_string_list-length :
    (s : Bytes) (max_items : ℕ)
    → (length (parse_string_list s max_items) ≤ max_items)
      × (length (parse_patch_entry s) ≤ max_patch_params)
unfolding parse_string_list parse_patch_entry
parse_string_list-length s max_items = (
  buffer_items-length max_items (take max_line_length s),
  buffer_items-length max_patch_params (take max_line_length s),
)
