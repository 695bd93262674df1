-- ===== src/Patch/Document/Rounds.antt =====
-- The versions of a printed patch: their metadata, the round over them at `patches:`, and the end of
-- the patch.
use ps3_plugins.Base.{
  ℕ, ◌+◌, ◌*◌, ◌%◌, ◌≡◌, refl, ap, ◌∙◌, ◌≢◌, inl, inr, Bool, true, false, ◌&&◌, Option, none, some,
  List, [], ◌∷◌, map, arith, ◌==◌, if◌then◌else◌, Bool-cases, ==_ne, Bytes, ◌>>=◌,
}
use ps3_plugins.ProgramArgs.{ProgramArgs}
use ps3_plugins.GamePatchInfo.{GamePatchInfo, titleid_text}
use ps3_plugins.Patch.Metadata.{
  calculate_patch_hash, patch_matches_game, is_exe_matched, settings_path, is_prx_name, is_one,
  str_dup, process_patch_metadata_for_app_ver,
}
use ps3_plugins.Patch.Complete.{
  handle_patch_complete, complete_loop, complete_round, finish_patch, version_rounds,
}
use ps3_plugins.Patch.Line.{announce, announce_loop, start_patches}
use ps3_plugins.Patch.Document.{PatchText, patch_of}
use ps3_plugins.Patch.{
  PatchMetadata, empty_metadata, PatchEntry, Build, prx, tools, low_mem, Env, ParseContext,
  create_parse_context, size_mod,
}

-- In PARSE_MODE_LOW_MEM the end of a patch stores nothing.
complete_round-low_mem :
    (build : Build) (env : Env) (v : Option Bytes) (i : ℕ) (ctx : ParseContext)
    → complete_round build low_mem env v i ctx ≡ some ctx
unfolding complete_round
complete_round-low_mem prx env v i ctx = refl
complete_round-low_mem tools env v i ctx = refl

complete_loop-low_mem :
    (env : Env) (vs : List (Option Bytes)) (i : ℕ) (ctx : ParseContext)
    → ctx.mode ≡ low_mem
    → complete_loop env vs i ctx ≡ some ctx
unfolding complete_loop
complete_loop-low_mem env [] i ctx h = refl
complete_loop-low_mem env (v ∷ vs) i ctx h =
    let round : complete_round env.build ctx.mode env v i ctx ≡ some ctx =
      ap (λ m. complete_round env.build m env v i ctx) h
      ∙ complete_round-low_mem env.build env v i ctx in
    ap (λ (r : Option ParseContext). r >>= (λ ctx'. complete_loop env vs (i + 1) ctx')) round
    ∙ complete_loop-low_mem env vs (i + 1) ctx h

-- The context in front of a patch, and the one behind its entries.
abbrev pub before_patch : GamePatchInfo → ℕ → PatchMetadata → Bool → ParseContext
before_patch info n meta flag = record (create_parse_context info low_mem) {
  current_patch_number = n;
  current_meta = meta;
  processing_enabled_patch = flag;
}

abbrev pub behind_patch : GamePatchInfo → PatchText → ℕ → PatchMetadata → Bool → ParseContext
behind_patch info p n meta flag = record (before_patch info n meta flag) {
  current_patch = patch_of p;
  in_patches_section = true;
}

pub handle_patch_complete-behind_patch :
    (env : Env) (info : GamePatchInfo) (p : PatchText) (n : ℕ) (meta : PatchMetadata) (flag : Bool)
    → handle_patch_complete env (behind_patch info p n meta flag)
      ≡ some (before_patch info ((n + 1) % size_mod) meta flag)
unfolding handle_patch_complete finish_patch create_parse_context
handle_patch_complete-behind_patch env info p n meta flag =
    ap (λ (r : Option ParseContext). r >>= (λ ctx. some (finish_patch ctx)))
      (complete_loop-low_mem env (version_rounds (p.first ∷ p.others)) 0
        (behind_patch info p n meta flag) refl)

pub handle_patch_complete-start :
    (env : Env) (info : GamePatchInfo)
    → handle_patch_complete env (create_parse_context info low_mem)
      ≡ some (before_patch info 0 empty_metadata false)
unfolding handle_patch_complete create_parse_context
handle_patch_complete-start env info = refl

-- What the console plugin takes from outside. `argv[0]` is there if the game has arguments at all,
-- so that the program can be compared.
pub record Console : Type 0 where
  pub signed_char : Bool
  pub g_args : Option ProgramArgs
  pub read_patch_state : Bytes → ℕ → Option Bool
  pub exe_matched : Bytes → Bool
  pub exe_known : (bin : Bytes) → is_exe_matched g_args bin ≡ some (exe_matched bin)

abbrev pub console : Console → Env
console c = record {
  signed_char = c.signed_char;
  build = prx;
  g_args = c.g_args;
  read_patch_state = c.read_patch_state;
}

module _ (c : Console) (info : GamePatchInfo) where
  -- The metadata of the version `i` of the patch number `n`.
  abbrev pub metadata_of : PatchText → ℕ → ℕ → Bytes → PatchMetadata
  metadata_of p n i v =
      let hash =
        calculate_patch_hash c.signed_char ((n * 100 + i) % size_mod) (titleid_text info)
          (patch_of p) (some v) in
      record {
        hash = hash;
        patch_number = (n * 100 + i) % size_mod;
        title = some p.title;
        name = none;
        author = none;
        version = none;
        app_bin = some p.app_bin;
        app_ver = some v;
        matches_game = patch_matches_game info (some v);
        enabled =
            is_one (c.read_patch_state (settings_path (titleid_text info)) hash)
            && c.exe_matched p.app_bin;
        is_prx = is_prx_name p.app_bin;
      }

  process_patch_metadata-metadata_of :
      (p : PatchText) (n i : ℕ) (v : Bytes) (meta : PatchMetadata) (flag : Bool)
      → process_patch_metadata_for_app_ver (console c) (behind_patch info p n meta flag) (some v) i
        ≡ some (metadata_of p n i v)
  unfolding process_patch_metadata_for_app_ver str_dup create_parse_context
  process_patch_metadata-metadata_of p n i v meta flag = rw (c.exe_known p.app_bin)

  module _ {ℓ} {S : Type ℓ} (meta_callback : PatchMetadata → S → S)
      (entry_callback : PatchMetadata → PatchEntry → S → S) where
    -- What a version does to the flag and to the callback's data.
    abbrev pub announced_one : PatchMetadata → Bool × S → Bool × S
    announced_one m (flag, user_data) =
        if m.matches_game then (m.enabled, meta_callback m user_data) else (flag, user_data)

    abbrev pub announced : PatchText → ℕ → ℕ → List Bytes → Bool × S → Bool × S
    announced p n i [] st = st
    announced p n i (v ∷ versions) st =
        announced p n (i + 1) versions (announced_one (metadata_of p n i v) st)

    announce-behind_patch :
        (p : PatchText) (n i : ℕ) (m meta : PatchMetadata) (flag : Bool) (user_data : S)
        → announce
            (console c)
            (some meta_callback)
            (some entry_callback)
            i
            m
            (behind_patch info p n meta flag, user_data)
          ≡ (
            behind_patch info p n
                (if i == 0 then m else meta)
                (announced_one m (flag, user_data)).0,
            (announced_one m (flag, user_data)).1,
          )
    unfolding announce create_parse_context
    announce-behind_patch p n i m meta flag user_data = elim (Bool-cases m.matches_game) [
      | inl e ↦ elim (Bool-cases (i == 0)) [ inl k ↦ simp (e, k) | inr k ↦ simp (e, k) ]
      | inr e ↦ elim (Bool-cases (i == 0)) [ inl k ↦ simp (e, k) | inr k ↦ simp (e, k) ]
    ]

    announce_loop-later :
        (versions : List Bytes) (p : PatchText) (n i : ℕ) (meta : PatchMetadata) (flag : Bool)
        (user_data : S)
        → i ≢ 0
        → announce_loop
            (console c)
            (some meta_callback)
            (some entry_callback)
            (map some versions)
            i
            (behind_patch info p n meta flag, user_data)
          ≡ some (
            behind_patch info p n meta (announced p n i versions (flag, user_data)).0,
            (announced p n i versions (flag, user_data)).1,
          )
    unfolding announce_loop
    announce_loop-later [] p n i meta flag user_data h = refl
    announce_loop-later (v ∷ versions) p n i meta flag user_data h =
        let m = metadata_of p n i v in
        let st = announced_one m (flag, user_data) in
        rw (process_patch_metadata-metadata_of p n i v meta flag, announce_loop)
          (rw (announce-behind_patch p n i m meta flag user_data) (
            rw (==_ne i 0 h)
              (announce_loop-later versions p n (i + 1) meta st.0 st.1 (omega arith))))

    pub start_patches-behind_patch :
        (p : PatchText) (n : ℕ) (meta : PatchMetadata) (flag : Bool) (user_data : S)
        → start_patches
            (console c)
            (some meta_callback)
            (some entry_callback)
            low_mem
            (record (before_patch info n meta flag) { current_patch = patch_of p }, user_data)
          ≡ some (
            behind_patch info p n
                (metadata_of p n 0 p.first)
                (announced p n 0 (p.first ∷ p.others) (flag, user_data)).0,
            (announced p n 0 (p.first ∷ p.others) (flag, user_data)).1,
          )
    unfolding start_patches announce_loop
    start_patches-behind_patch p n meta flag user_data =
        let m = metadata_of p n 0 p.first in
        let st = announced_one m (flag, user_data) in
        rw (process_patch_metadata-metadata_of p n 0 p.first meta flag, start_patches)
          (rw (announce-behind_patch p n 0 m meta flag user_data)
            (announce_loop-later p.others p n 1 m st.0 st.1 (omega arith)))
