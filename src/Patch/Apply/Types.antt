-- ===== src/Patch/Apply/Types.antt =====
-- Which kinds of patches write what.
use ps3_plugins.Base.{
  ℕ, zero, suc, ◌+◌, ◌*◌, ◌/◌, ◌%◌, ◌^◌, ◌≡◌, refl, sym, ap, ◌∙◌, inl, inr, Option, none, some,
  List, [], ◌∷◌, ◌++◌, arith, Bool-cases, Bytes, codes, same, length, length-append, Option-cases,
}
use native.Mathlib.Nat.{pow-suc, mul_comm, div-div-eq-div-mul, mod-eq-sub-div-mul, mod-add-div'}
use ps3_plugins.CString.{has_prefix}
use ps3_plugins.Number.{string_to_uint}
use ps3_plugins.ProgramArgs.{ProgramArgs, append_arg}
use ps3_plugins.ProgramArgs.Bounds.{IsValid, append_arg-IsValid}
use ps3_plugins.Patch.{PatchEntry}
use ps3_plugins.Patch.Apply.{
  long_bits, MemoryWrite, Game, put_bytes, write_patch, write_width, append_args, append_entry,
  apply_patch,
}

-- The number that bytes spell, the most significant one first.
abbrev pub big_endian : ℕ → Bytes → ℕ
big_endian n [] = n
big_endian n (b ∷ bs) = big_endian (n * 256 + b) bs

big_endian-append : (n : ℕ) (a b : Bytes) → big_endian n (a ++ b) ≡ big_endian (big_endian n a) b
big_endian-append n [] b = refl
big_endian-append n (c ∷ a) b = big_endian-append (n * 256 + c) a b

mod-mul : (m v : ℕ) → v % (m * 256) ≡ v / 256 % m * 256 + v % 256
mod-mul m v =
    let quotient : v / (m * 256) ≡ v / 256 / m =
      ap (λ t. v / t) (mul_comm m 256) ∙ sym (div-div-eq-div-mul v 256 m) in
    mod-eq-sub-div-mul v (m * 256) ∙ rw quotient (omega (arith, mod-add-div' (v / 256) m))

-- The bytes written are those of the value's low `n` bytes.
put_bytes_lem :
    (n v : ℕ) → (length (put_bytes n v) ≡ n) × (big_endian 0 (put_bytes n v) ≡ v % 256 ^ n)
unfolding put_bytes
put_bytes_lem zero v = (refl, omega arith)
put_bytes_lem (suc n) v =
    let (size, value) = put_bytes_lem n (v / 256) in
    (
      omega (arith, length-append (put_bytes n (v / 256)) (v % 256 ∷ [])),
      big_endian-append 0 (put_bytes n (v / 256)) (v % 256 ∷ [])
          ∙ rw (value, pow-suc) (sym (mod-mul (256 ^ n) v)),
    )

-- The type of a patch decides the width of its write: two bytes for "be16", four for "be32", eight
-- for "be64" and one for every type that begins with "byte". The last holds for "bytes16",
-- "bytes32" and "bytes64" too: the test for "byte" compares four characters and comes first.
pub write_width-prefix :
    (type : Bytes)
    → (write_width (codes "be16" ++ type) ≡ some 2)
      × (write_width (codes "be32" ++ type) ≡ some 4)
      × (write_width (codes "be64" ++ type) ≡ some 8)
      × (write_width (codes "byte" ++ type) ≡ some 1)
unfolding write_width has_prefix
write_width-prefix type = (refl, refl, refl, ground arith)

-- The types that write, with the number of bytes: two for "be16", four for "be32", eight for "be64",
-- whatever follows, and one for all that begins with "byte", "bytes16" to "bytes64" included.
pub data Width : Bytes → ℕ → Type 0 where
  two : (more : Bytes) → Width (codes "be16" ++ more) 2
  four : (more : Bytes) → Width (codes "be32" ++ more) 4
  eight : (more : Bytes) → Width (codes "be64" ++ more) 8
  one : (more : Bytes) → Width (codes "byte" ++ more) 1

write_width-Width : {type : Bytes} {n : ℕ} → Width type n → write_width type ≡ some n
write_width-Width (two more) = (write_width-prefix more).0
write_width-Width (four more) = (write_width-prefix more).1
write_width-Width (eight more) = (write_width-prefix more).2
write_width-Width (one more) = (write_width-prefix more).3

-- A patch whose type begins with "be16", "be32", "be64" or "byte" makes one write: at the address that
-- its second parameter spells, cut to 32 bits, with 2, 4, 8 or 1 bytes ("bytes16", "bytes32" and
-- "bytes64" too write one), which spell the low bytes of its third parameter, most significant first.
-- It changes nothing else.
pub apply_patch_writes :
    (type address value : Bytes) (more : List Bytes) (game : Game) (n : ℕ)
    → Width type n
    → (w : MemoryWrite) × (apply_patch (type ∷ address ∷ value ∷ more) game
        ≡ record game { writes = game.writes ++ (w ∷ []) })
      × (w.address ≡ string_to_uint long_bits address % 2 ^ 32)
      × (length w.bytes ≡ n)
      × (big_endian 0 w.bytes ≡ string_to_uint long_bits value % 256 ^ n)
unfolding apply_patch write_patch
apply_patch_writes type address value more game n e =
    let (size, spelled) = put_bytes_lem n (string_to_uint long_bits value) in
    (
      record {
        address = string_to_uint long_bits address % 2 ^ 32;
        bytes = put_bytes n (string_to_uint long_bits value);
      },
      rw (write_width-Width e, apply_patch),
      refl,
      size,
      spelled,
    )

append_args-IsValid :
    (params : List Bytes) (p : ProgramArgs) → IsValid p → IsValid (append_args params p)
unfolding append_args
append_args-IsValid [] p v = v
append_args-IsValid (a ∷ params) p v = elim (Bool-cases (same a [])) [
  | inl empty ↦ rw (empty, append_args) (append_args-IsValid params p v)
  | inr text ↦
      rw (text, append_args)
        (append_args-IsValid params (append_arg p a).1 (append_arg-IsValid p a v).0)
]

-- The arguments of a game, where there are any, are valid.
abbrev pub ArgsValid : Option ProgramArgs → Type 0
ArgsValid none = Unit
ArgsValid (some p) = IsValid p

append_entry-ArgsValid :
    (params : List Bytes) (game : Game)
    → ArgsValid game.g_args
    → ArgsValid (append_entry params game).g_args
unfolding append_entry
append_entry-ArgsValid params game v = by_args game.g_args refl
  where
    by_args :
        (o : Option ProgramArgs) → game.g_args ≡ o → ArgsValid (append_entry params game).g_args
    by_args none e = rw (e, append_entry) v
    by_args (some p) e = rw (e, append_entry) (append_args-IsValid params p (rw e at v))

-- Whatever an entry holds, the arguments of the game stay within their arrays.
pub apply_patch-ArgsValid :
    (entry : PatchEntry) (game : Game)
    → ArgsValid game.g_args
    → ArgsValid (apply_patch entry game).g_args
unfolding apply_patch write_patch
apply_patch-ArgsValid [] game v = v
apply_patch-ArgsValid (type ∷ []) game v = v
apply_patch-ArgsValid (type ∷ address ∷ []) game v = v
apply_patch-ArgsValid (type ∷ address ∷ value ∷ more) game v =
    elim (Option-cases (write_width type)) [
      | inr (n, e) ↦ rw (e, apply_patch) v
      | inl e ↦ elim (Bool-cases (same type (codes "append_arg"))) [
        | inl append ↦
            rw (e, apply_patch, append) (append_entry-ArgsValid (address ∷ value ∷ more) game v)
        | inr other ↦ rw (e, apply_patch, other) v
      ]
    ]
