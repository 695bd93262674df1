-- ===== src/Patch/Bounds/Lines.antt =====
-- The arrays of a ParseContext over the lines of a file.
use ps3_plugins.Base.{
  ℕ, ◌+◌, inl, inr, true, ◌&&◌, Option, List, [], ◌∷◌, arith, leb, ◌==◌, Bool-cases, Bytes, codes,
  length, drop, All-append,
}
use ps3_plugins.Text.Items.{parse_patch_entry}
use ps3_plugins.Text.Items.Fuel.{parse_string_list-length}
use ps3_plugins.CString.{has_prefix}
use ps3_plugins.Text.Line.{is_comment_or_empty, get_indent_level, trim}
use ps3_plugins.Text.Quoted.{parse_quoted_string}
use ps3_plugins.GamePatchInfo.{GamePatchInfo}
use ps3_plugins.Patch.Metadata.{process_patch_metadata_for_app_ver}
use ps3_plugins.Patch.Complete.{version_rounds, handle_patch_complete}
use ps3_plugins.Patch.Line.{
  LineKind, titleid_line, patch_line, app_ver_line, patches_line, other_line, field_line, set_field,
  set_app_ver, announce, announce_loop, start_patches, take_entry, process_entry, process_kind,
  process_line, line_kind,
}
use ps3_plugins.Patch.File.{process_lines}
use ps3_plugins.Patch.Bounds.{
  IsEntryBounded, IsBounded, Leaves, Leaves-bind, Leaves-Any, Any, handle_patch_complete-IsBounded,
  set_field-app_vers, set_app_ver-app_vers, with_patch, set_titleids-IsBounded,
}
use ps3_plugins.Patch.{
  PatchMetadata, PatchEntry, ParseMode, Build, Env, ParseContext, create_parse_context,
  min_patch_params,
}

module _ {ℓ} {S : Type ℓ} (env : Env) (meta_callback : Option (PatchMetadata → S → S))
    (entry_callback : Option (PatchMetadata → PatchEntry → S → S)) where
  -- The context of a state is bounded.
  abbrev pub Bounded : ParseContext × S → Type 0
  Bounded st = IsBounded st.0

  opened-IsBounded :
      (ctx : ParseContext) → IsBounded ctx → IsBounded (record ctx { in_patches_section = true })
  opened-IsBounded ctx h = record {
    titleids = h.titleids;
    app_vers = h.app_vers;
    entries = h.entries;
    patches = h.patches;
  }

  announce-Bounded :
      (i : ℕ) (meta : PatchMetadata) (st : ParseContext × S)
      → Bounded st
      → Bounded (announce env meta_callback entry_callback i meta st)
  unfolding announce
  announce-Bounded i meta (ctx, user_data) h = elim (Bool-cases (i == 0)) [
    | inl e ↦ rw e (record {
      titleids = h.titleids;
      app_vers = h.app_vers;
      entries = h.entries;
      patches = h.patches;
    })
    | inr e ↦ rw e (record {
      titleids = h.titleids;
      app_vers = h.app_vers;
      entries = h.entries;
      patches = h.patches;
    })
  ]

  announce_loop-Bounded :
      (vs : List (Option Bytes)) (i : ℕ) (st : ParseContext × S)
      → Bounded st
      → Leaves Bounded (announce_loop env meta_callback entry_callback vs i st)
  unfolding announce_loop
  announce_loop-Bounded [] i st h = h
  announce_loop-Bounded (v ∷ vs) i st h =
      Leaves-bind Any Bounded (process_patch_metadata_for_app_ver env st.0 v i) _ (Leaves-Any _)
        (λ meta _. announce_loop-Bounded vs (i + 1) _ (announce-Bounded i meta st h))

  start_patches-Bounded :
      (mode : ParseMode) (st : ParseContext × S)
      → Bounded st
      → Leaves Bounded (start_patches env meta_callback entry_callback mode st)
  unfolding start_patches
  start_patches-Bounded ParseMode.low_mem (ctx, user_data) h =
      announce_loop-Bounded (version_rounds ctx.current_patch.app_ver) 0 _ (opened-IsBounded ctx h)
  start_patches-Bounded ParseMode.all (ctx, user_data) h = opened-IsBounded ctx h
  start_patches-Bounded ParseMode.metadata (ctx, user_data) h = opened-IsBounded ctx h

  take_entry-Bounded :
      (build : Build) (mode : ParseMode) (entry : PatchEntry) (st : ParseContext × S)
      → IsEntryBounded entry
      → Bounded st
      → Bounded (take_entry env meta_callback entry_callback build mode entry st)
  unfolding take_entry
  take_entry-Bounded Build.tools ParseMode.all entry (ctx, user_data) e h = record {
    titleids = h.titleids;
    app_vers = h.app_vers;
    entries = All-append _ ctx.current_entries _ h.entries (e, tt);
    patches = h.patches;
  }
  take_entry-Bounded Build.prx ParseMode.all entry st e h = h
  take_entry-Bounded Build.prx ParseMode.low_mem entry st e h = h
  take_entry-Bounded Build.tools ParseMode.low_mem entry st e h = h
  take_entry-Bounded Build.prx ParseMode.metadata entry st e h = h
  take_entry-Bounded Build.tools ParseMode.metadata entry st e h = h

  process_entry-Bounded :
      (trimmed : Bytes) (st : ParseContext × S)
      → Bounded st
      → Bounded (process_entry env meta_callback entry_callback trimmed st)
  unfolding process_entry
  process_entry-Bounded trimmed (ctx, user_data) h =
      elim (Bool-cases (ctx.in_patches_section && has_prefix (codes "- [") trimmed)) [
        | inr e ↦ rw e h
        | inl e ↦
            elim (Bool-cases (leb min_patch_params (length (parse_patch_entry (drop 2 trimmed))))) [
              | inr k ↦ rw e (rw k h)
              | inl k ↦ rw e (
                  rw k (
                    take_entry-Bounded env.build ctx.mode _ (ctx, user_data)
                      (ground (arith, k), (parse_string_list-length (drop 2 trimmed) 0).1) h))
            ]
      ]

  process_kind-Bounded :
      (kind : LineKind) (trimmed : Bytes) (st : ParseContext × S)
      → Bounded st
      → Leaves Bounded (process_kind env meta_callback entry_callback kind trimmed st)
  unfolding process_kind
  process_kind-Bounded titleid_line trimmed (ctx, user_data) h =
      set_titleids-IsBounded trimmed ctx h
  process_kind-Bounded patch_line trimmed (ctx, user_data) h =
      Leaves-bind IsBounded Bounded (handle_patch_complete env ctx) _
        (handle_patch_complete-IsBounded env ctx h) (λ ctx' h'. h')
  process_kind-Bounded (field_line field) trimmed (ctx, user_data) h =
      with_patch (set_field field (parse_quoted_string trimmed) ctx.current_patch) ctx h (
        omega (
          arith,
          h.app_vers,
          set_field-app_vers field (parse_quoted_string trimmed) ctx.current_patch,
        ))
  process_kind-Bounded app_ver_line trimmed (ctx, user_data) h =
      with_patch (set_app_ver trimmed ctx.current_patch) ctx h
        (set_app_ver-app_vers trimmed ctx.current_patch)
  process_kind-Bounded patches_line trimmed st h = start_patches-Bounded st.0.mode st h
  process_kind-Bounded other_line trimmed st h = process_entry-Bounded trimmed st h

  process_line-Bounded :
      (line : Bytes) (st : ParseContext × S)
      → Bounded st
      → Leaves Bounded (process_line env meta_callback entry_callback line st)
  unfolding process_line
  process_line-Bounded line st h = elim (Bool-cases (is_comment_or_empty line)) [
    | inl e ↦ rw e h
    | inr e ↦
        rw e (process_kind-Bounded (line_kind (get_indent_level line) (trim line)) (trim line) st h)
  ]

  process_lines-Bounded :
      (lines : List Bytes) (st : ParseContext × S)
      → Bounded st
      → Leaves Bounded (process_lines env meta_callback entry_callback lines st)
  unfolding process_lines
  process_lines-Bounded [] st h = h
  process_lines-Bounded (line ∷ lines) st h =
      Leaves-bind Bounded Bounded (process_line env meta_callback entry_callback line st) _
        (process_line-Bounded line st h) (λ st' h'. process_lines-Bounded lines st' h')

  -- Whatever lines a patch file has, in every mode and build, where the parser does not crash: the
  -- array of titles holds at most MAX_TITLE_IDS strings, that of versions at most MAX_APP_VERS, and
  -- every stored entry has MIN_PATCH_PARAMS to MAX_PATCH_PARAMS parameters.
  pub process_lines-IsBounded :
      (lines : List Bytes) (game_info : GamePatchInfo) (mode : ParseMode) (user_data : S)
      → Leaves Bounded (
          process_lines env meta_callback entry_callback lines
            (create_parse_context game_info mode, user_data))
  unfolding create_parse_context
  process_lines-IsBounded lines game_info mode user_data =
      process_lines-Bounded lines (create_parse_context game_info mode, user_data)
        (record { titleids = omega arith; app_vers = omega arith; entries = tt; patches = tt })
