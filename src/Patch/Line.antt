-- ===== src/Patch/Line.antt =====
-- game_patch/patch.c: `process_line`, one line of a patch file. `none` is a crash. The callbacks are
-- parameters, NULL is `none`; their data has the type `S`. Allocations succeed.
use ps3_plugins.Base.{
  ℕ, ◌+◌, true, false, ◌&&◌, Option, none, some, List, [], ◌∷◌, ◌++◌, leb, ◌==◌, if◌then◌else◌,
  Bytes, codes, length, drop, ◌>>=◌,
}
use ps3_plugins.CString.{has_prefix}
use ps3_plugins.Text.Line.{is_comment_or_empty, get_indent_level, trim, is_list_value}
use ps3_plugins.Text.Quoted.{parse_quoted_string}
use ps3_plugins.Text.Items.{parse_string_list, parse_patch_entry}
use ps3_plugins.Patch.Metadata.{process_patch_metadata_for_app_ver, contains}
use ps3_plugins.Patch.Complete.{handle_patch_complete, grown, version_rounds}
use ps3_plugins.Patch.{
  Patch, PatchMetadata, PatchEntry, ParseMode, all, low_mem, Build, tools, Env, ParseContext,
  max_title_ids, max_app_vers, min_patch_params,
}

-- The fields that a line sets by a quoted string.
pub data Field : Type 0 where
  title name notes author version app_bin : Field

-- What a line is taken for, in the order of the tests.
pub data LineKind : Type 0 where
  titleid_line patch_line app_ver_line patches_line other_line : LineKind
  field_line : Field → LineKind

-- The tests behind the two for lines without indentation.
unfoldable pub inner_kind : Bytes → LineKind
unfolding contains
inner_kind trimmed =
    if contains trimmed (codes "title:")
    then field_line title
    else if contains trimmed (codes "name:")
    then field_line name
    else if contains trimmed (codes "notes:")
    then field_line notes
    else if contains trimmed (codes "author:")
    then field_line author
    else if contains trimmed (codes "version:")
    then field_line version
    else if contains trimmed (codes "app_bin:")
    then field_line app_bin
    else if contains trimmed (codes "app_ver:")
    then app_ver_line
    else if contains trimmed (codes "patches:")
    then patches_line
    else other_line

unfoldable pub line_kind : ℕ → Bytes → LineKind
unfolding inner_kind
line_kind indent trimmed =
    if indent == 0 && contains trimmed (codes "titleid:")
    then titleid_line
    else if indent == 0 && contains trimmed (codes "patch:")
    then patch_line
    else inner_kind trimmed

unfoldable pub set_field : Field → Option Bytes → Patch → Patch
set_field title value patch = record patch { title = value }
set_field name value patch = record patch { name = value }
set_field notes value patch = record patch { notes = value }
set_field author value patch = record patch { author = value }
set_field version value patch = record patch { version = value }
set_field app_bin value patch = record patch { app_bin = value }

unfoldable pub set_titleids : Bytes → ParseContext → ParseContext
set_titleids trimmed ctx =
    if is_list_value trimmed
    then record ctx { global_titleids = parse_string_list trimmed max_title_ids }
    else ctx

-- `app_ver_count` is 0 where the value is no quoted string.
abbrev pub single : Option Bytes → List Bytes
single none = []
single (some v) = v ∷ []

unfoldable pub set_app_ver : Bytes → Patch → Patch
set_app_ver trimmed patch =
    if is_list_value trimmed
    then record patch { is_app_ver_list = true; app_ver = parse_string_list trimmed max_app_vers }
    else record patch { is_app_ver_list = false; app_ver = single (parse_quoted_string trimmed) }

module _ {ℓ} {S : Type ℓ} (env : Env) (meta_callback : Option (PatchMetadata → S → S))
    (entry_callback : Option (PatchMetadata → PatchEntry → S → S)) where
  -- A round over the versions at `patches:`, in PARSE_MODE_LOW_MEM.
  unfoldable pub announce : ℕ → PatchMetadata → ParseContext × S → ParseContext × S
  announce av_idx meta (ctx, user_data) =
      let ctx' = record ctx {
        processing_enabled_patch = elim meta_callback [
          | none ↦ ctx.processing_enabled_patch
          | some _ ↦
              if meta.matches_game
              then meta.matches_game && meta.enabled
              else ctx.processing_enabled_patch
        ];
      } in
      (
        if av_idx == 0 then record ctx' { current_meta = meta } else ctx',
        elim meta_callback [
          | none ↦ user_data
          | some call ↦ if meta.matches_game then call meta user_data else user_data
        ],
      )

  unfoldable pub announce_loop :
      List (Option Bytes) → ℕ → ParseContext × S → Option (ParseContext × S)
  unfolding announce
  announce_loop [] av_idx st = some st
  announce_loop (app_ver ∷ versions) av_idx st = do
    meta ← process_patch_metadata_for_app_ver env st.0 app_ver av_idx
    announce_loop versions (av_idx + 1) (announce av_idx meta st)

  unfoldable pub start_patches : ParseMode → ParseContext × S → Option (ParseContext × S)
  unfolding announce_loop
  start_patches low_mem (ctx, user_data) =
      announce_loop (version_rounds ctx.current_patch.app_ver) 0
        (record ctx { in_patches_section = true }, user_data)
  start_patches mode (ctx, user_data) = some (record ctx { in_patches_section = true }, user_data)

  -- What becomes of a parsed entry.
  unfoldable pub take_entry : Build → ParseMode → PatchEntry → ParseContext × S → ParseContext × S
  take_entry tools all entry (ctx, user_data) = (
    record ctx {
      current_entries_capacity = grown (length ctx.current_entries) ctx.current_entries_capacity;
      current_entries = ctx.current_entries ++ (entry ∷ []);
    },
    user_data,
  )
  take_entry build low_mem entry (ctx, user_data) = (
    ctx,
    if ctx.processing_enabled_patch
        then elim entry_callback [
          | none ↦ user_data
          | some call ↦ call ctx.current_meta entry user_data
        ]
        else user_data,
  )
  take_entry build mode entry st = st

  -- `trimmed` begins with `- [`, and there are enough parameters.
  unfoldable pub process_entry : Bytes → ParseContext × S → ParseContext × S
  unfolding take_entry
  process_entry trimmed (ctx, user_data) =
      if ctx.in_patches_section && has_prefix (codes "- [") trimmed
      then (let entry = parse_patch_entry (drop 2 trimmed) in
          if leb min_patch_params (length entry)
          then take_entry env.build ctx.mode entry (ctx, user_data)
          else (ctx, user_data))
      else (ctx, user_data)

  unfoldable pub process_kind : LineKind → Bytes → ParseContext × S → Option (ParseContext × S)
  unfolding set_titleids set_field set_app_ver start_patches process_entry handle_patch_complete
  process_kind titleid_line trimmed (ctx, user_data) = some (set_titleids trimmed ctx, user_data)
  process_kind patch_line trimmed (ctx, user_data) = do
    ctx' ← handle_patch_complete env ctx
    some (ctx', user_data)
  process_kind (field_line field) trimmed (ctx, user_data) = some (
    record ctx { current_patch = set_field field (parse_quoted_string trimmed) ctx.current_patch },
    user_data,
  )
  process_kind app_ver_line trimmed (ctx, user_data) =
      some (record ctx { current_patch = set_app_ver trimmed ctx.current_patch }, user_data)
  process_kind patches_line trimmed st = start_patches st.0.mode st
  process_kind other_line trimmed st = some (process_entry trimmed st)

  unfoldable pub process_line : Bytes → ParseContext × S → Option (ParseContext × S)
  unfolding process_kind line_kind
  process_line line st =
      if is_comment_or_empty line
      then some st
      else (let trimmed = trim line in
          process_kind (line_kind (get_indent_level line) trimmed) trimmed st)
