-- ===== src/Patch/File.antt =====
-- game_patch/patch.c: `parse_patch_file` and `parse_patch_file_low_mem`, over the lines that they
-- read; `none` is a crash. The result is whether they return 0.
use ps3_plugins.Base.{
  Bool, true, false, not, Option, none, some, List, [], ◌∷◌, if◌then◌else◌, Bytes, ◌>>=◌,
}
use ps3_plugins.Patch.Complete.{handle_patch_complete}
use ps3_plugins.Patch.Line.{process_line}
use ps3_plugins.Patch.{PatchMetadata, PatchEntry, ParseMode, low_mem, Env, ParseContext}

-- What opening and measuring the file gives: its lines, or the step that fails.
pub data Source : Type 0 where
  open_failed size_failed : Source
  file_lines : List Bytes → Source

abbrev pub is_low_mem : ParseMode → Bool
is_low_mem low_mem = true
is_low_mem _ = false

module _ {ℓ} {S : Type ℓ} (env : Env) (meta_callback : Option (PatchMetadata → S → S))
    (entry_callback : Option (PatchMetadata → PatchEntry → S → S)) where
  unfoldable pub process_lines : List Bytes → ParseContext × S → Option (ParseContext × S)
  unfolding process_line
  process_lines [] st = some st
  process_lines (line ∷ lines) st = do
    st' ← process_line env meta_callback entry_callback line st
    process_lines lines st'

  -- The loop over the lines, and the last patch.
  unfoldable pub process_file : List Bytes → ParseContext × S → Option (ParseContext × S)
  unfolding process_lines
  process_file lines st = do
    (ctx, user_data) ← process_lines lines st
    ctx' ← handle_patch_complete env ctx
    some (ctx', user_data)

  unfoldable pub parse_patch_file_low_mem :
      Source → ParseContext × S → Option (Bool × ParseContext × S)
  unfolding process_file
  parse_patch_file_low_mem file (ctx, user_data) =
      if not (is_low_mem ctx.mode) then some (false, ctx, user_data) else elim file [
        | open_failed ↦ some (false, ctx, user_data)
        | size_failed ↦ some (false, ctx, user_data)
        | file_lines text ↦ do
          (ctx', user_data') ← process_file text (ctx, user_data)
          some (true, ctx', user_data')
      ]

-- No callback is set for `parse_patch_file`. Where the size cannot be had, the console build returns
-- the status of the call before, which is FILE_STATUS_OK; the build for tools takes no size.
unfoldable pub parse_patch_file : Env → Source → ParseContext → Option (Bool × ParseContext)
unfolding process_file
parse_patch_file env file ctx = if is_low_mem ctx.mode then some (false, ctx) else elim file [
  | open_failed ↦ some (false, ctx)
  | size_failed ↦ some (true, ctx)
  | file_lines text ↦ do
    (ctx', _) ← process_file {S = Unit {0}} env none none text (ctx, tt)
    some (true, ctx')
]
