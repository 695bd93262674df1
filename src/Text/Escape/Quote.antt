-- ===== src/Text/Escape/Quote.antt =====
-- How a text is written between quotation marks, so that `unescape_string` reads it back.
use ps3_plugins.Base.{
  ℕ, zero, suc, ◌≤◌, ◌≡◌, refl, ◌≢◌, ◌||◌, [], ◌∷◌, ◌++◌, arith, ◌==◌, if◌then◌else◌, Bytes, length,
  All,
}
use ps3_plugins.Text.Escape.{
  backslash, quote_mark, unescape_char, unescape_loop, unescape_string, c_string,
}

-- A quotation mark and a backslash get a backslash in front.
unfoldable pub quote_byte : ℕ → Bytes
quote_byte c = if c == quote_mark || c == backslash then backslash ∷ c ∷ [] else c ∷ []

unfoldable pub quote_body : Bytes → Bytes
unfolding quote_byte
quote_body [] = []
quote_body (c ∷ s) = quote_byte c ++ quote_body s

unfoldable pub quote : Bytes → Bytes
unfolding quote_body
quote s = quote_mark ∷ (quote_body s ++ quote_mark ∷ [])

unescape_loop-quote_byte :
    (f c : ℕ) (s : Bytes)
    → length (quote_byte c ++ quote_body s) ≤ f
    → ((g : ℕ) → length (quote_body s) ≤ g → unescape_loop g (quote_body s) ≡ s)
    → unescape_loop f (quote_byte c ++ quote_body s) ≡ c ∷ s
unfolding unescape_loop unescape_char quote_byte
unescape_loop-quote_byte zero c s h ih = ground arith
unescape_loop-quote_byte (suc f) c s h ih = ground (arith, ih f)

unescape_loop-quote_body :
    (f : ℕ) (s : Bytes) → length (quote_body s) ≤ f → unescape_loop f (quote_body s) ≡ s
unfolding unescape_loop unescape_char quote_body
unescape_loop-quote_body zero [] h = refl
unescape_loop-quote_body (suc f) [] h = refl
unescape_loop-quote_body f (c ∷ s) h =
    unescape_loop-quote_byte f c s h (λ g. unescape_loop-quote_body g s)

-- Unescaping undoes quoting.
pub unescape_string-quote_body : (s : Bytes) → unescape_string (quote_body s) ≡ s
unfolding unescape_string
unescape_string-quote_body s = unescape_loop-quote_body (length (quote_body s)) s (omega arith)

-- A buffer with no NUL is read whole.
pub c_string_whole : (s : Bytes) → All (λ c. c ≢ 0) s → c_string s ≡ s
unfolding c_string
c_string_whole [] h = refl
c_string_whole (c ∷ s) h = ground (arith, c_string_whole s h.1)
