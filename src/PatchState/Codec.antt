-- ===== src/PatchState/Codec.antt =====
-- The states written to a file, and those read from it.
use ps3_plugins.Base.{
  ℕ, ◌/◌, ◌%◌, ◌^◌, ◌<◌, ◌≡◌, refl, true, Option, some, List, [], ◌∷◌, arith, Bytes, length, All,
}
use ps3_plugins.PatchState.{
  u32, PatchState, get_u32, put_states, get_states, read_patch_states_internal, completes,
  write_patch_states_internal,
}

-- A state whose fields fit into a uint32_t and a uint8_t.
pub record FitsState (s : PatchState) : Type 0 where
  pub hash_fits : s.hash < u32
  pub enabled_fits : s.enabled < 256

get-put_u32 :
    (n : ℕ)
    → n < u32
    → get_u32 (n / 2 ^ 24 % 256) (n / 2 ^ 16 % 256) (n / 2 ^ 8 % 256) (n % 256) ≡ n
get-put_u32 n h = omega arith

pub get_states-put_states :
    (states : List PatchState)
    → All FitsState states
    → get_states (length states) (put_states states) ≡ some states
unfolding get_states put_states
get_states-put_states [] h = refl
get_states-put_states (s ∷ states) h =
    rw (get-put_u32 s.hash h.0.hash_fits, get_states-put_states states h.1)
      (ground (arith, h.0.enabled_fits))

-- What `write_patch_states_internal` writes, `read_patch_states_internal` reads back, where the
-- number of states fits into the header.
pub read-write_patch_states_internal :
    (file : Option Bytes) (states : List PatchState)
    → All FitsState states
    → length states < u32
    → ((write_patch_states_internal completes file states).0 ≡ true)
      × (read_patch_states_internal (write_patch_states_internal completes file states).1 ≡ states)
unfolding read_patch_states_internal write_patch_states_internal
read-write_patch_states_internal file states fit few = (
  refl,
  rw (get-put_u32 (length states % u32) (omega arith), fits_mod, get_states-put_states states fit)
      refl,
)
  where
    fits_mod : length states % u32 ≡ length states
    fits_mod = omega arith
