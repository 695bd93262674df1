-- ===== src/Patch/Complete.antt =====
-- game_patch/patch.c: `reset_current_patch` and `handle_patch_complete`. `none` is a crash.
-- Allocations succeed.
use ps3_plugins.Base.{
  ℕ, ◌+◌, ◌*◌, ◌%◌, Bool, false, Option, none, some, List, [], ◌∷◌, ◌++◌, map, leb, if◌then◌else◌,
  Bytes, same, length, ◌>>=◌,
}
use ps3_plugins.GamePatchInfo.{app_ver_text}
use ps3_plugins.Patch.Metadata.{process_patch_metadata_for_app_ver}
use ps3_plugins.Patch.{
  empty_patch, PatchMetadata, ParseMode, all, low_mem, metadata, Build, prx, tools, Env,
  ParseContext, size_mod,
}

unfoldable pub reset_current_patch : ParseContext → ParseContext
reset_current_patch ctx = record ctx { current_patch = empty_patch; in_patches_section = false }

-- A capacity is doubled where the array is full.
abbrev pub grown : ℕ → ℕ → ℕ
grown count capacity = if leb capacity count then capacity * 2 % size_mod else capacity

unfoldable pub push_patch : PatchMetadata → ParseContext → ParseContext
push_patch meta ctx = record ctx {
  all_patches_capacity = grown (length ctx.all_patches) ctx.all_patches_capacity;
  all_patches = ctx.all_patches ++ (record { metadata = meta; entries = ctx.current_entries } ∷ []);
}

unfoldable pub push_metadata : PatchMetadata → ParseContext → ParseContext
push_metadata meta ctx = record ctx {
  metadata_capacity = grown (length ctx.metadata_array) ctx.metadata_capacity;
  metadata_array = ctx.metadata_array ++ (meta ∷ []);
}

-- `ctx->title ? strcmp(ctx->title, meta.title) == 0 : false`; a crash on a missing title.
unfoldable pub title_matches : Option Bytes → Option Bytes → Option Bool
title_matches none title = some false
title_matches (some wanted) none = none
title_matches (some wanted) (some title) = some (same wanted title)

-- A round in PARSE_MODE_ALL of the build for tools; `strcmp` crashes on a missing version.
unfoldable pub complete_all : Env → Option Bytes → ℕ → ParseContext → Option ParseContext
unfolding push_patch title_matches
complete_all env none av_idx ctx = none
complete_all env (some app_ver) av_idx ctx =
    if same app_ver (app_ver_text ctx.game_info)
    then (do
      meta ← process_patch_metadata_for_app_ver env ctx (some app_ver) av_idx
      matched ← title_matches ctx.title meta.title
      some (if matched then push_patch meta ctx else ctx))
    else some ctx

unfoldable pub complete_metadata : Env → Option Bytes → ℕ → ParseContext → Option ParseContext
unfolding push_metadata
complete_metadata env app_ver av_idx ctx = do
  meta ← process_patch_metadata_for_app_ver env ctx app_ver av_idx
  some (push_metadata meta ctx)

-- One round over the versions. The console build stores nothing.
unfoldable pub complete_round :
    Build → ParseMode → Env → Option Bytes → ℕ → ParseContext → Option ParseContext
unfolding complete_all complete_metadata
complete_round tools all env app_ver av_idx ctx = complete_all env app_ver av_idx ctx
complete_round tools metadata env app_ver av_idx ctx = complete_metadata env app_ver av_idx ctx
complete_round tools low_mem env app_ver av_idx ctx = some ctx
complete_round prx mode env app_ver av_idx ctx = some ctx

-- The versions of the rounds; a patch without versions has one round with NULL.
abbrev pub version_rounds : List Bytes → List (Option Bytes)
version_rounds [] = none ∷ []
version_rounds (v ∷ versions) = map some (v ∷ versions)

unfoldable pub complete_loop : Env → List (Option Bytes) → ℕ → ParseContext → Option ParseContext
unfolding complete_round
complete_loop env [] av_idx ctx = some ctx
complete_loop env (app_ver ∷ versions) av_idx ctx = do
  ctx' ← complete_round env.build ctx.mode env app_ver av_idx ctx
  complete_loop env versions (av_idx + 1) ctx'

unfoldable pub finish_patch : ParseContext → ParseContext
unfolding reset_current_patch
finish_patch ctx = record (reset_current_patch ctx) {
  current_entries = [];
  current_patch_number = (ctx.current_patch_number + 1) % size_mod;
}

unfoldable pub handle_patch_complete : Env → ParseContext → Option ParseContext
unfolding complete_loop finish_patch
handle_patch_complete env ctx = elim ctx.current_patch.title [
  | none ↦ some ctx
  | some _ ↦ do
    ctx' ← complete_loop env (version_rounds ctx.current_patch.app_ver) 0 ctx
    some (finish_patch ctx')
]
