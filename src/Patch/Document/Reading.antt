-- ===== src/Patch/Document/Reading.antt =====
-- What is done with a printed patch file in PARSE_MODE_LOW_MEM.
use ps3_plugins.Base.{
  ℕ, ◌+◌, ◌%◌, ◌≡◌, refl, ◌∙◌, Bool, true, false, Option, some, List, [], ◌∷◌, ◌++◌, if◌then◌else◌,
  Bytes, codes, All,
}
use ps3_plugins.GamePatchInfo.{GamePatchInfo}
use ps3_plugins.Patch.Complete.{handle_patch_complete}
use ps3_plugins.Patch.Line.{process_line, take_entry}
use ps3_plugins.Patch.File.{process_lines, process_file, parse_patch_file_low_mem, file_lines}
use ps3_plugins.Patch.Document.{
  PatchText, IsEntry, IsPatch, document, patch_lines, entry_lines, entry_text, patch_of, title_text,
  app_bin_text, app_ver_text,
}
use ps3_plugins.Patch.Document.Lines.{
  process_line-title_text, process_line-app_bin_text, process_line-app_ver_text, process_line-patch,
  process_line-patches, process_line-entry_text,
}
use ps3_plugins.Patch.Document.Rounds.{
  Console, before_patch, behind_patch, console, metadata_of, announced, start_patches-behind_patch,
  handle_patch_complete-behind_patch, handle_patch_complete-start,
}
use ps3_plugins.Patch.{
  empty_patch, PatchMetadata, empty_metadata, PatchEntry, low_mem, Env, ParseContext,
  create_parse_context, size_mod,
}

module _ {ℓ} {S : Type ℓ} (c : Console) (info : GamePatchInfo)
    (meta_callback : PatchMetadata → S → S)
    (entry_callback : PatchMetadata → PatchEntry → S → S) where
  abbrev env : Env
  env = console c

  abbrev run : List Bytes → ParseContext × S → Option (ParseContext × S)
  run lines st = process_lines env (some meta_callback) (some entry_callback) lines st

  -- The entries of a patch are passed on where the flag is set.
  abbrev pub delivered : Bool → PatchMetadata → List PatchEntry → S → S
  delivered flag meta [] user_data = user_data
  delivered flag meta (e ∷ entries) user_data =
      delivered flag meta entries (if flag then entry_callback meta e user_data else user_data)

  -- A line that is handled leaves the rest to the loop.
  run_line :
      (line : Bytes) (lines : List Bytes) (st st' : ParseContext × S)
      → process_line env (some meta_callback) (some entry_callback) line st ≡ some st'
      → run (line ∷ lines) st ≡ run lines st'
  unfolding process_lines
  run_line line lines st st' h = rw h

  run-entry_lines :
      (entries : List PatchEntry) (rest : List Bytes) (p : PatchText) (n : ℕ) (meta : PatchMetadata)
      (flag : Bool) (user_data : S)
      → All IsEntry entries
      → run (entry_lines entries ++ rest) (behind_patch info p n meta flag, user_data)
        ≡ run rest (behind_patch info p n meta flag, delivered flag meta entries user_data)
  unfolding take_entry create_parse_context
  run-entry_lines [] rest p n meta flag user_data h = refl
  run-entry_lines (e ∷ entries) rest p n meta flag user_data h =
      run_line (codes "    " ++ entry_text e) (entry_lines entries ++ rest)
        (behind_patch info p n meta flag, user_data)
        (
          behind_patch info p n meta flag,
          if flag then entry_callback meta e user_data else user_data,
        )
        (process_line-entry_text env (some meta_callback) (some entry_callback) e
          (behind_patch info p n meta flag) user_data h.0 refl)
      ∙ run-entry_lines entries rest p n meta flag
          (if flag then entry_callback meta e user_data else user_data) h.1

  -- The flag and the data behind the line `patches:`.
  abbrev pub opened : PatchText → ℕ → Bool × S → Bool × S
  opened p n st = announced c info meta_callback entry_callback p n 0 (p.first ∷ p.others) st

  abbrev pub first_metadata : PatchText → ℕ → PatchMetadata
  first_metadata p n = metadata_of c info p n 0 p.first

  run-patch_lines :
      (p : PatchText) (rest : List Bytes) (ctx : ParseContext) (n : ℕ) (meta : PatchMetadata)
      (flag : Bool) (user_data : S)
      → IsPatch p
      → handle_patch_complete env ctx ≡ some (before_patch info n meta flag)
      → run (patch_lines p ++ rest) (ctx, user_data)
        ≡ run rest (
          behind_patch info p n (first_metadata p n) (opened p n (flag, user_data)).0,
          delivered
              (opened p n (flag, user_data)).0
              (first_metadata p n)
              p.entries
              (opened p n (flag, user_data)).1,
        )
  unfolding create_parse_context
  run-patch_lines p rest ctx n meta flag user_data h fresh =
      let versions : List Bytes = p.first ∷ p.others in
      let entries : List Bytes = entry_lines p.entries ++ rest in
      let opening : List Bytes = codes "  patches:" ∷ entries in
      let with_versions : List Bytes = (codes "  " ++ app_ver_text versions) ∷ opening in
      let with_bin : List Bytes = (codes "  " ++ app_bin_text p.app_bin) ∷ with_versions in
      let fresh_ctx : ParseContext = before_patch info n meta flag in
      let titled : ParseContext = record fresh_ctx {
        current_patch = record empty_patch { title = some p.title };
      } in
      let named : ParseContext = record fresh_ctx {
        current_patch = record empty_patch { title = some p.title; app_bin = some p.app_bin };
      } in
      let complete : ParseContext = record fresh_ctx { current_patch = patch_of p } in
      let st = opened p n (flag, user_data) in
      run_line (codes "patch:") ((codes "  " ++ title_text p.title) ∷ with_bin) (ctx, user_data)
        (fresh_ctx, user_data)
        (process_line-patch env (some meta_callback) (some entry_callback) ctx user_data ∙ rw fresh)
      ∙ run_line (codes "  " ++ title_text p.title) with_bin (fresh_ctx, user_data)
          (titled, user_data)
          (process_line-title_text env (some meta_callback) (some entry_callback) p.title fresh_ctx
            user_data h.title_no_nul)
      ∙ run_line (codes "  " ++ app_bin_text p.app_bin) with_versions (titled, user_data)
          (named, user_data)
          (process_line-app_bin_text env (some meta_callback) (some entry_callback) p.app_bin titled
            user_data h.app_bin_no_nul h.app_bin_kind)
      ∙ run_line (codes "  " ++ app_ver_text versions) opening (named, user_data)
          (complete, user_data)
          (process_line-app_ver_text env (some meta_callback) (some entry_callback) versions named
            user_data h.versions_listable h.versions_fit h.versions_line_fits h.versions_kind)
      ∙ run_line (codes "  patches:") entries (complete, user_data)
          (behind_patch info p n (first_metadata p n) st.0, st.1)
          (process_line-patches env (some meta_callback) (some entry_callback) complete user_data
            ∙ start_patches-behind_patch c info meta_callback entry_callback p n meta flag
                user_data)
      ∙ run-entry_lines p.entries rest p n (first_metadata p n) st.0 st.1 h.entries

  process_file-run :
      (lines lines' : List Bytes) (st st' : ParseContext × S)
      → run lines st ≡ run lines' st'
      → process_file env (some meta_callback) (some entry_callback) lines st
        ≡ process_file env (some meta_callback) (some entry_callback) lines' st'
  unfolding process_file
  process_file-run lines lines' st st' h = rw h

  -- The data of the callbacks behind the patches from number `n` on: each version of the game is
  -- announced, and the entries are passed on, with the metadata of the first version, while the flag
  -- of the last announced version is set.
  abbrev pub read_all : ℕ → Bool → S → List PatchText → S
  read_all n flag user_data [] = user_data
  read_all n flag user_data (p ∷ patches) =
      let st = opened p n (flag, user_data) in
      read_all ((n + 1) % size_mod) st.0 (delivered st.0 (first_metadata p n) p.entries st.1)
        patches

  process_file-document :
      (patches : List PatchText) (ctx : ParseContext) (n : ℕ) (meta : PatchMetadata) (flag : Bool)
      (user_data : S)
      → All IsPatch patches
      → handle_patch_complete env ctx ≡ some (before_patch info n meta flag)
      → (ctx' : ParseContext) × (process_file env
            (some meta_callback)
            (some entry_callback)
            (document patches)
            (ctx, user_data)
          ≡ some (ctx', read_all n flag user_data patches))
  unfolding process_file process_lines
  process_file-document [] ctx n meta flag user_data h fresh =
      (before_patch info n meta flag, rw fresh)
  process_file-document (p ∷ patches) ctx n meta flag user_data h fresh =
      let st = opened p n (flag, user_data) in
      let user_data' = delivered st.0 (first_metadata p n) p.entries st.1 in
      let (ctx', e) =
        process_file-document patches (behind_patch info p n (first_metadata p n) st.0)
          ((n + 1) % size_mod) (first_metadata p n) st.0 user_data' h.1
          (handle_patch_complete-behind_patch env info p n (first_metadata p n) st.0) in
      (
        ctx',
        process_file-run (document (p ∷ patches)) (document patches) (ctx, user_data)
              (behind_patch info p n (first_metadata p n) st.0, user_data')
              (run-patch_lines p (document patches) ctx n meta flag user_data h.0 fresh)
            ∙ e,
      )

  -- Reading a printed patch file in PARSE_MODE_LOW_MEM succeeds and calls back as `read_all` says: in
  -- the order of the file, for every version that is the game's, and for the entries.
  pub parse_patch_file_low_mem-document :
      (patches : List PatchText) (user_data : S)
      → All IsPatch patches
      → (ctx' : ParseContext) × (parse_patch_file_low_mem env
            (some meta_callback)
            (some entry_callback)
            (file_lines (document patches))
            (create_parse_context info low_mem, user_data)
          ≡ some (true, ctx', read_all 0 false user_data patches))
  unfolding parse_patch_file_low_mem create_parse_context
  parse_patch_file_low_mem-document patches user_data h =
      let (ctx', e) =
        process_file-document patches (create_parse_context info low_mem) 0 empty_metadata false
          user_data h (handle_patch_complete-start env info) in
      (ctx', rw e)
