-- ===== src/Text/Quoted/RoundTrip.antt =====
-- What `parse_quoted_string` makes of a quoted text.
use ps3_plugins.Base.{
  ℕ, ◌≡◌, refl, sym, ap, ◌∙◌, ◌≢◌, inl, inr, ◌||◌, some, [], ◌∷◌, ◌++◌, append_assoc, append-nil,
  arith, ◌==◌, Bool-cases, Bytes, All,
}
use ps3_plugins.CString.{strchr}
use ps3_plugins.Text.Escape.{backslash, quote_mark, unescape_string, c_string}
use ps3_plugins.Text.Escape.Quote.{
  quote_byte, quote_body, quote, unescape_string-quote_body, c_string_whole,
}
use ps3_plugins.Text.Quoted.{Span, behind, scan_to_quote, parse_quoted_string}

scan_plain :
    (c : ℕ) (t : Bytes)
    → c ≢ backslash
    → c ≢ quote_mark
    → scan_to_quote (c ∷ t) ≡ behind c (scan_to_quote t)
unfolding scan_to_quote
scan_plain c [] h k = ground arith
scan_plain c (d ∷ t) h k = ground arith

scan_stop :
    (t : Bytes) → scan_to_quote (quote_mark ∷ t) ≡ record { between = []; at_end = quote_mark ∷ t }
unfolding scan_to_quote
scan_stop [] = refl
scan_stop (c ∷ t) = refl

scan-quote_byte :
    (c : ℕ) (t : Bytes) (p : Span)
    → scan_to_quote t ≡ p
    → scan_to_quote (quote_byte c ++ t)
      ≡ record { between = quote_byte c ++ p.between; at_end = p.at_end }
unfolding quote_byte
scan-quote_byte c t p e = elim (Bool-cases (c == quote_mark || c == backslash)) [
  | inl special ↦ rw (special, quote_byte) (unfold scan_to_quote in rw e)
  | inr plain ↦ rw (plain, quote_byte) (scan_plain c t (ground arith) (ground arith) ∙ rw e)
]

pub scan-quote_body :
    (s rest : Bytes)
    → scan_to_quote (quote_body s ++ quote_mark ∷ rest)
      ≡ record { between = quote_body s; at_end = quote_mark ∷ rest }
unfolding quote_body
scan-quote_body [] rest = scan_stop rest
scan-quote_body (c ∷ s) rest = rw append_assoc (
    scan-quote_byte c (quote_body s ++ quote_mark ∷ rest)
      (record { between = quote_body s; at_end = quote_mark ∷ rest }) (scan-quote_body s rest))

pub strchr_first :
    (b : ℕ) (before t : Bytes) → All (λ c. c ≢ b) before → strchr (before ++ b ∷ t) b ≡ some (b ∷ t)
unfolding strchr
strchr_first b [] t h = ground arith
strchr_first b (c ∷ before) t h = ground (arith, strchr_first b before t h.1)

parse_quoted_string_found :
    (str start between rest : Bytes)
    → strchr str quote_mark ≡ some (quote_mark ∷ start)
    → scan_to_quote start ≡ record { between = between; at_end = quote_mark ∷ rest }
    → parse_quoted_string str ≡ some (c_string (unescape_string between))
unfolding parse_quoted_string
parse_quoted_string_found str start between rest e k = rw (e, parse_quoted_string) (rw k)

-- A text with no NUL, quoted and put behind anything that holds no quotation mark, is what
-- `parse_quoted_string` returns, whatever stands after it.
pub parse_quoted_string-quote :
    (before s rest : Bytes)
    → All (λ c. c ≢ quote_mark) before
    → All (λ c. c ≢ 0) s
    → parse_quoted_string (before ++ (quote s ++ rest)) ≡ some s
unfolding quote
parse_quoted_string-quote before s rest hb hs =
    parse_quoted_string_found _ _ (quote_body s) rest (strchr_first quote_mark before _ hb)
      (rw append_assoc (scan-quote_body s rest))
    ∙ rw (unescape_string-quote_body s, c_string_whole s hs)

-- The same at the end of a line.
pub parse_quoted_string-quote_end :
    (before s : Bytes)
    → All (λ c. c ≢ quote_mark) before
    → All (λ c. c ≢ 0) s
    → parse_quoted_string (before ++ quote s) ≡ some s
parse_quoted_string-quote_end before s hb hs =
    ap (λ t. parse_quoted_string (before ++ t)) (sym (append-nil (quote s)))
    ∙ parse_quoted_string-quote before s [] hb hs
