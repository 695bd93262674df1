-- ===== src/Text/Items/RoundTrip.antt =====
-- What `parse_string_list` makes of a printed list of quoted strings.
use ps3_plugins.Text.Items.Brackets.{
  more_items, items_text, last_byte, IsListable, prepend, prepend_lem, bracket-items_text,
}
use ps3_plugins.Base.{
  ℕ, zero, suc, ◌≤◌, ◌≡◌, refl, sym, ap, ◌∙◌, ◌≢◌, inl, inr, false, ◌||◌, some, List, [], ◌∷◌, ◌++◌,
  append_assoc, append-nil, arith, ◌==◌, Bool-cases, Bytes, length, take, take_all, All,
}
use ps3_plugins.CString.{strchr, isspace}
use ps3_plugins.Text.Escape.{backslash, quote_mark}
use ps3_plugins.Text.Escape.Quote.{quote_byte, quote_body, quote}
use ps3_plugins.Text.Quoted.{Span, behind, parse_quoted_string}
use ps3_plugins.Text.Quoted.RoundTrip.{strchr_first, parse_quoted_string-quote}
use ps3_plugins.Text.Items.{
  scan_item, read_item, next_item, after_comma, items_loop, span_items, buffer_items,
  parse_string_list, parse_patch_entry, max_patch_params, Item, max_line_length, scan_to_bracket,
  open_bracket, close_bracket,
}
use ps3_plugins.Text.Items.Fuel.{next_item-length}

item_plain :
    (prev c : ℕ) (t : Bytes)
    → c ≢ backslash
    → c ≢ quote_mark
    → scan_item prev (c ∷ t) ≡ behind c (scan_item c t)
unfolding scan_item
item_plain prev c [] h k = ground arith
item_plain prev c (d ∷ t) h k = ground arith

item_stop :
    (prev : ℕ) (t : Bytes)
    → prev ≢ backslash
    → scan_item prev (quote_mark ∷ t) ≡ record { between = []; at_end = quote_mark ∷ t }
unfolding scan_item
item_stop prev [] h = ground arith
item_stop prev (c ∷ t) h = ground arith

item-quote_byte :
    (prev c : ℕ) (t : Bytes)
    → scan_item prev (quote_byte c ++ t) ≡ prepend (quote_byte c) (scan_item c t)
unfolding quote_byte
item-quote_byte prev c t = elim (Bool-cases (c == quote_mark || c == backslash)) [
  | inl special ↦ rw (special, quote_byte) (unfold scan_item in refl)
  | inr plain ↦ rw (plain, quote_byte) (item_plain prev c t (ground arith) (ground arith))
]

-- The closing quotation mark is found, unless the text ends in a backslash.
scan_item-quote_body :
    (s t : Bytes) (prev : ℕ)
    → last_byte prev s ≢ backslash
    → scan_item prev (quote_body s ++ quote_mark ∷ t)
      ≡ record { between = quote_body s; at_end = quote_mark ∷ t }
unfolding quote_body
scan_item-quote_body [] t prev h = item_stop prev t h
scan_item-quote_body (c ∷ s) t prev h =
    rw
      (
        append_assoc,
        item-quote_byte prev c (quote_body s ++ quote_mark ∷ t),
        scan_item-quote_body s t c h,
      )
      (prepend_lem (quote_byte c) _)

parse-quote : (x : Bytes) → All (λ c. c ≢ 0) x → parse_quoted_string (quote x) ≡ some x
parse-quote x h =
    ap parse_quoted_string (sym (append-nil (quote x))) ∙ parse_quoted_string-quote [] x [] tt h

read_item-quote :
    (x t : Bytes) → IsListable x → read_item (quote x ++ t) ≡ record { value = some x; pos = t }
unfolding read_item quote
read_item-quote x t h =
    rw (append_assoc, scan_item-quote_body x t quote_mark h.1)
      (ap (λ v. record { value = v; pos = t }) (parse-quote x h.0))

next_item-quote :
    (x t : Bytes)
    → IsListable x
    → next_item (quote x ++ t) ≡ some (record { value = some x; pos = after_comma t })
unfolding next_item quote isspace
next_item-quote x t h =
    ap (λ (i : Item). some (record { value = i.value; pos = after_comma i.pos }))
      (read_item-quote x t h)

-- The loop, at the start of a text whose first item is `x`.
items_loop-some :
    (f room c : ℕ) (s x next : Bytes)
    → next_item (c ∷ s) ≡ some (record { value = some x; pos = next })
    → items_loop (suc f) (suc room) (c ∷ s) ≡ x ∷ items_loop f room next
unfolding items_loop
items_loop-some f room c s x next e = rw (e, items_loop)

next_item_blank : (s : Bytes) → next_item (b' ' ∷ s) ≡ next_item s
unfolding next_item isspace
next_item_blank s = refl

items_loop-more_items :
    (xs : List Bytes) (f room : ℕ)
    → All IsListable xs
    → length (after_comma (more_items xs)) ≤ f
    → items_loop f room (after_comma (more_items xs)) ≡ take room xs
unfolding items_loop more_items after_comma
items_loop-more_items [] zero zero h p = refl
items_loop-more_items [] zero (suc room) h p = refl
items_loop-more_items [] (suc f) zero h p = refl
items_loop-more_items [] (suc f) (suc room) h p = refl
items_loop-more_items (x ∷ xs) zero room h p = absurd (omega arith)
items_loop-more_items (x ∷ xs) (suc f) zero h p = refl
items_loop-more_items (x ∷ xs) (suc f) (suc room) h p =
    let found =
      next_item_blank (quote x ++ more_items xs) ∙ next_item-quote x (more_items xs) h.0 in
    let shorter = next_item-length b' ' (quote x ++ more_items xs) _ found in
    items_loop-some f room b' ' (quote x ++ more_items xs) x (after_comma (more_items xs)) found
    ∙ ap (λ t. x ∷ t) (items_loop-more_items xs f room h.1 (omega arith))

items_loop-items_text :
    (xs : List Bytes) (f room : ℕ)
    → All IsListable xs
    → length (items_text xs) ≤ f
    → items_loop f room (items_text xs) ≡ take room xs
unfolding items_loop items_text quote
items_loop-items_text [] zero zero h p = refl
items_loop-items_text [] zero (suc room) h p = refl
items_loop-items_text [] (suc f) zero h p = refl
items_loop-items_text [] (suc f) (suc room) h p = refl
items_loop-items_text (x ∷ xs) zero room h p = absurd (omega arith)
items_loop-items_text (x ∷ xs) (suc f) zero h p = refl
items_loop-items_text (x ∷ xs) (suc f) (suc room) h p =
    let found = next_item-quote x (more_items xs) h.0 in
    let shorter =
      next_item-length quote_mark ((quote_body x ++ quote_mark ∷ []) ++ more_items xs) _ found in
    items_loop-some f room quote_mark ((quote_body x ++ quote_mark ∷ []) ++ more_items xs) x
      (after_comma (more_items xs)) found
    ∙ ap (λ t. x ∷ t) (items_loop-more_items xs f room h.1 (omega arith))

-- A list in brackets, behind a text with no opening bracket and in front of any text.
abbrev pub list_line : Bytes → List Bytes → Bytes → Bytes
list_line before xs rest = before ++ open_bracket ∷ (items_text xs ++ close_bracket ∷ rest)

buffer_items_found :
    (room : ℕ) (buffer start : Bytes) (span : Span)
    → strchr buffer open_bracket ≡ some (open_bracket ∷ start)
    → scan_to_bracket false start ≡ span
    → buffer_items room buffer ≡ span_items room span
unfolding buffer_items
buffer_items_found room buffer start span e k = rw (e, buffer_items) (rw k)

pub buffer_items-list_line :
    (before : Bytes) (xs : List Bytes) (rest : Bytes) (room : ℕ)
    → All (λ c. c ≢ open_bracket) before
    → All IsListable xs
    → buffer_items room (list_line before xs rest) ≡ take room xs
unfolding span_items
buffer_items-list_line before xs rest room hb hx =
    buffer_items_found room (list_line before xs rest) (items_text xs ++ close_bracket ∷ rest)
      (record { between = items_text xs; at_end = close_bracket ∷ rest })
      (strchr_first open_bracket before (items_text xs ++ close_bracket ∷ rest) hb)
      (bracket-items_text xs rest)
    ∙ items_loop-items_text xs (length (items_text xs)) room hx (omega arith)

-- `parse_string_list` reads a printed list back, up to the number of places in its array, where the
-- line fits into the buffer and no item holds a NUL or ends in a backslash; so does
-- `parse_patch_entry` with its MAX_PATCH_PARAMS places.
pub parse_string_list-list_line :
    (before : Bytes) (xs : List Bytes) (rest : Bytes) (max_items : ℕ)
    → All (λ c. c ≢ open_bracket) before
    → All IsListable xs
    → length (list_line before xs rest) ≤ max_line_length
    → (parse_string_list (list_line before xs rest) max_items ≡ take max_items xs)
      × (parse_patch_entry (list_line before xs rest) ≡ take max_patch_params xs)
unfolding parse_string_list parse_patch_entry
parse_string_list-list_line before xs rest max_items hb hx fits =
    let whole = take_all max_line_length (list_line before xs rest) fits in
    (
      ap (buffer_items max_items) whole ∙ buffer_items-list_line before xs rest max_items hb hx,
      ap (buffer_items max_patch_params) whole
          ∙ buffer_items-list_line before xs rest max_patch_params hb hx,
    )
