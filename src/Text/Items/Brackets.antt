-- ===== src/Text/Items/Brackets.antt =====
-- A printed list of quoted strings, and where the scan for its closing bracket ends.
use ps3_plugins.Base.{
  ℕ, ◌≡◌, refl, ap, ◌∙◌, ◌≢◌, inl, inr, Bool, true, false, not, ◌&&◌, ◌||◌, List, [], ◌∷◌, ◌++◌,
  append_assoc, arith, ◌==◌, Bool-cases, Bytes, All,
}
use ps3_plugins.Text.Escape.{backslash, quote_mark}
use ps3_plugins.Text.Escape.Quote.{quote_byte, quote_body, quote}
use ps3_plugins.Text.Quoted.{Span, behind}
use ps3_plugins.Text.Items.{scan_to_bracket, close_bracket, toggled}

-- The items behind the first one, each behind a comma and a blank.
unfoldable pub more_items : List Bytes → Bytes
more_items [] = []
more_items (x ∷ xs) = b',' ∷ b' ' ∷ (quote x ++ more_items xs)

unfoldable pub items_text : List Bytes → Bytes
unfolding more_items
items_text [] = []
items_text (x ∷ xs) = quote x ++ more_items xs

-- The last byte of a text, or the one in front of it.
abbrev pub last_byte : ℕ → Bytes → ℕ
last_byte prev [] = prev
last_byte prev (c ∷ s) = last_byte c s

-- A text that can stand in a list: no NUL, and no backslash at its end.
abbrev pub IsListable : Bytes → Type 0
IsListable x = All (λ c. c ≢ 0) x × (last_byte quote_mark x ≢ backslash)

abbrev pub prepend : Bytes → Span → Span
prepend [] p = p
prepend (c ∷ s) p = behind c (prepend s p)

prepend-append : (a b : Bytes) (p : Span) → prepend (a ++ b) p ≡ prepend a (prepend b p)
prepend-append [] b p = refl
prepend-append (c ∷ a) b p = ap (behind c) (prepend-append a b p)

pub prepend_lem :
    (a : Bytes) (p : Span) → prepend a p ≡ record { between = a ++ p.between; at_end = p.at_end }
prepend_lem [] p = refl
prepend_lem (c ∷ a) p = ap (behind c) (prepend_lem a p)

bracket_plain :
    (q : Bool) (c : ℕ) (t : Bytes)
    → c ≢ backslash
    → (not (toggled q c) && c == close_bracket) ≡ false
    → scan_to_bracket q (c ∷ t) ≡ behind c (scan_to_bracket (toggled q c) t)
unfolding scan_to_bracket
bracket_plain q c [] h k = ground arith
bracket_plain q c (d ∷ t) h k = ground arith

bracket-quote_byte :
    (c : ℕ) (t : Bytes)
    → scan_to_bracket true (quote_byte c ++ t) ≡ prepend (quote_byte c) (scan_to_bracket true t)
unfolding quote_byte
bracket-quote_byte c t = elim (Bool-cases (c == quote_mark || c == backslash)) [
  | inl special ↦ rw (special, quote_byte) (unfold scan_to_bracket in refl)
  | inr plain ↦
      rw (plain, quote_byte) (bracket_plain true c t (ground arith) (ground arith) ∙ ground arith)
]

bracket-quote_body :
    (s t : Bytes)
    → scan_to_bracket true (quote_body s ++ t) ≡ prepend (quote_body s) (scan_to_bracket true t)
unfolding quote_body
bracket-quote_body [] t = refl
bracket-quote_body (c ∷ s) t =
    rw (
      append_assoc,
      bracket-quote_byte c (quote_body s ++ t),
      bracket-quote_body s t,
      prepend-append,
    )

bracket-quote :
    (s t : Bytes)
    → scan_to_bracket false (quote s ++ t) ≡ prepend (quote s) (scan_to_bracket false t)
unfolding quote
bracket-quote s t =
    bracket_plain false quote_mark ((quote_body s ++ quote_mark ∷ []) ++ t) (omega arith) refl
    ∙ rw (
      append_assoc,
      bracket-quote_body,
      bracket_plain true quote_mark t (omega arith) refl,
      prepend-append,
    )

bracket_stop :
    (rest : Bytes)
    → scan_to_bracket false (close_bracket ∷ rest)
      ≡ record { between = []; at_end = close_bracket ∷ rest }
unfolding scan_to_bracket
bracket_stop [] = refl
bracket_stop (c ∷ rest) = refl

bracket-more_items :
    (xs : List Bytes) (rest : Bytes)
    → scan_to_bracket false (more_items xs ++ close_bracket ∷ rest)
      ≡ record { between = more_items xs; at_end = close_bracket ∷ rest }
unfolding more_items
bracket-more_items [] rest = bracket_stop rest
bracket-more_items (x ∷ xs) rest =
    bracket_plain false b',' _ (omega arith) refl
    ∙ ap (behind b',') (
        bracket_plain false b' ' _ (omega arith) refl
        ∙ ap (behind b' ') (
            rw (append_assoc, bracket-quote, bracket-more_items xs rest) (prepend_lem (quote x) _)))

pub bracket-items_text :
    (xs : List Bytes) (rest : Bytes)
    → scan_to_bracket false (items_text xs ++ close_bracket ∷ rest)
      ≡ record { between = items_text xs; at_end = close_bracket ∷ rest }
unfolding items_text
bracket-items_text [] rest = bracket_stop rest
bracket-items_text (x ∷ xs) rest =
    rw (append_assoc, bracket-quote, bracket-more_items xs rest) (prepend_lem (quote x) _)
