-- ===== src/Patch/Document/Lines.antt =====
-- What the parser makes of the lines of a printed patch.
use ps3_plugins.Base.{
  ◌≤◌, ◌≡◌, refl, ap, ◌∙◌, ◌≢◌, true, false, Option, some, List, [], ◌∷◌, ◌++◌, arith, Bytes, codes,
  length, drop, take_all, All, ◌>>=◌,
}
use ps3_plugins.CString.{isspace, skip_space, has_prefix}
use ps3_plugins.Text.Line.{is_comment_or_empty, get_indent_level, trim, is_list_value}
use ps3_plugins.Text.Line.Bare.{step_back-reverse}
use ps3_plugins.Text.Escape.{quote_mark}
use ps3_plugins.Text.Escape.Quote.{quote, quote_body}
use ps3_plugins.Text.Quoted.{parse_quoted_string}
use ps3_plugins.Text.Quoted.RoundTrip.{parse_quoted_string-quote_end}
use ps3_plugins.Text.Items.{
  parse_string_list, parse_patch_entry, open_bracket, close_bracket, max_patch_params,
}
use ps3_plugins.Text.Items.RoundTrip.{parse_string_list-list_line}
use ps3_plugins.Text.Items.Brackets.{items_text}
use ps3_plugins.Patch.Complete.{handle_patch_complete}
use ps3_plugins.Patch.Line.{
  patch_line, patches_line, start_patches, set_field, Field, LineKind, line_kind, inner_kind,
  process_line, process_kind, field_line, title, app_bin, app_ver_line, other_line, set_app_ver,
  process_entry, take_entry,
}
use ps3_plugins.Patch.Document.{
  max_line_length, IsListable, title_text, app_bin_text, app_ver_text, entry_text, IsEntry,
}
use ps3_plugins.Patch.{
  min_patch_params, Patch, PatchMetadata, PatchEntry, Env, ParseContext, low_mem, max_app_vers,
}

-- Lines behind blanks.
trim-title_text : (t : Bytes) → trim (codes "  " ++ title_text t) ≡ title_text t
unfolding trim skip_space isspace quote
trim-title_text t = step_back-reverse (codes "title: " ++ quote_mark ∷ quote_body t) quote_mark refl

trim-app_bin_text : (t : Bytes) → trim (codes "  " ++ app_bin_text t) ≡ app_bin_text t
unfolding trim skip_space isspace quote
trim-app_bin_text t =
    step_back-reverse (codes "app_bin: " ++ quote_mark ∷ quote_body t) quote_mark refl

trim-app_ver_text : (xs : List Bytes) → trim (codes "  " ++ app_ver_text xs) ≡ app_ver_text xs
unfolding trim skip_space isspace
trim-app_ver_text xs =
    step_back-reverse (codes "app_ver: " ++ open_bracket ∷ items_text xs) close_bracket refl

trim-entry_text : (e : PatchEntry) → trim (codes "    " ++ entry_text e) ≡ entry_text e
unfolding trim skip_space isspace
trim-entry_text e = step_back-reverse (codes "- " ++ open_bracket ∷ items_text e) close_bracket refl

entry_text-parsed : (e : PatchEntry) → IsEntry e → parse_patch_entry (drop 2 (entry_text e)) ≡ e
entry_text-parsed e h =
    (parse_string_list-list_line [] e [] 0 tt h.listable (omega (arith, h.line_fits))).1
    ∙ take_all max_patch_params e h.fits

set_app_ver-app_ver_text :
    (versions : List Bytes) (patch : Patch)
    → parse_string_list (app_ver_text versions) max_app_vers ≡ versions
    → set_app_ver (app_ver_text versions) patch
      ≡ record patch { is_app_ver_list = true; app_ver = versions }
unfolding set_app_ver is_list_value isspace
set_app_ver-app_ver_text versions patch h = rw h

module _ {ℓ} {S : Type ℓ} (env : Env) (meta_callback : Option (PatchMetadata → S → S))
    (entry_callback : Option (PatchMetadata → PatchEntry → S → S)) where
  -- A line is handled by its kind.
  pub process_line-process_kind :
      (line trimmed : Bytes) (kind : LineKind) (st : ParseContext × S)
      → is_comment_or_empty line ≡ false
      → trim line ≡ trimmed
      → line_kind (get_indent_level line) trimmed ≡ kind
      → process_line env meta_callback entry_callback line st
        ≡ process_kind env meta_callback entry_callback kind trimmed st
  unfolding process_line
  process_line-process_kind line trimmed kind st h e k = rw (h, process_line) (rw e (rw k))

  process_kind-field_line :
      (field : Field) (trimmed value : Bytes) (ctx : ParseContext) (user_data : S)
      → parse_quoted_string trimmed ≡ some value
      → process_kind env meta_callback entry_callback (field_line field) trimmed (ctx, user_data)
        ≡ some (
          record ctx { current_patch = set_field field (some value) ctx.current_patch },
          user_data,
        )
  unfolding process_kind
  process_kind-field_line field trimmed value ctx user_data h = rw h

  pub process_line-title_text :
      (t : Bytes) (ctx : ParseContext) (user_data : S)
      → All (λ c. c ≢ 0) t
      → process_line env meta_callback entry_callback (codes "  " ++ title_text t) (ctx, user_data)
        ≡ some (
          record ctx { current_patch = record (ctx.current_patch) { title = some t } },
          user_data,
        )
  unfolding line_kind is_comment_or_empty get_indent_level skip_space isspace has_prefix set_field
  process_line-title_text t ctx user_data h =
      process_line-process_kind (codes "  " ++ title_text t) (title_text t) (field_line title)
        (ctx, user_data) refl (trim-title_text t) refl
      ∙ process_kind-field_line title (title_text t) t ctx user_data
          (parse_quoted_string-quote_end (codes "title: ") t (omega arith) h)

  pub process_line-app_bin_text :
      (t : Bytes) (ctx : ParseContext) (user_data : S)
      → All (λ c. c ≢ 0) t
      → inner_kind (app_bin_text t) ≡ field_line app_bin
      → process_line env meta_callback entry_callback
          (codes "  " ++ app_bin_text t)
          (ctx, user_data)
        ≡ some (
          record ctx { current_patch = record (ctx.current_patch) { app_bin = some t } },
          user_data,
        )
  unfolding line_kind is_comment_or_empty get_indent_level skip_space isspace set_field
  process_line-app_bin_text t ctx user_data h kind =
      process_line-process_kind (codes "  " ++ app_bin_text t) (app_bin_text t) (field_line app_bin)
        (ctx, user_data) refl (trim-app_bin_text t) kind
      ∙ process_kind-field_line app_bin (app_bin_text t) t ctx user_data
          (parse_quoted_string-quote_end (codes "app_bin: ") t (omega arith) h)

  pub process_line-app_ver_text :
      (versions : List Bytes) (ctx : ParseContext) (user_data : S)
      → All IsListable versions
      → length versions ≤ max_app_vers
      → length (app_ver_text versions) ≤ max_line_length
      → inner_kind (app_ver_text versions) ≡ app_ver_line
      → process_line env meta_callback entry_callback
          (codes "  " ++ app_ver_text versions)
          (ctx, user_data)
        ≡ some (
          record ctx {
            current_patch = record (ctx.current_patch) {
              is_app_ver_list = true;
              app_ver = versions;
            };
          },
          user_data,
        )
  unfolding line_kind is_comment_or_empty get_indent_level skip_space isspace process_kind
  process_line-app_ver_text versions ctx user_data listable fit line_fits kind =
      process_line-process_kind (codes "  " ++ app_ver_text versions) (app_ver_text versions)
        app_ver_line (ctx, user_data) refl (trim-app_ver_text versions) kind
      ∙ ap (λ (p : Patch). some (record ctx { current_patch = p }, user_data))
          (set_app_ver-app_ver_text versions ctx.current_patch (
            (parse_string_list-list_line (codes "app_ver: ") versions [] max_app_vers (omega arith)
              listable line_fits).0
            ∙ take_all max_app_vers versions fit))

  pub process_line-patch :
      (ctx : ParseContext) (user_data : S)
      → process_line env meta_callback entry_callback (codes "patch:") (ctx, user_data)
        ≡ (do ctx' ← handle_patch_complete env ctx; some (ctx', user_data))
  unfolding line_kind is_comment_or_empty get_indent_level skip_space isspace process_kind
      has_prefix trim ps3_plugins.Patch.Metadata.contains ps3_plugins.CString.strstr
      ps3_plugins.Text.Line.step_back
  process_line-patch ctx user_data =
      process_line-process_kind (codes "patch:") (codes "patch:") patch_line (ctx, user_data) refl
        refl refl

  pub process_line-patches :
      (ctx : ParseContext) (user_data : S)
      → process_line env meta_callback entry_callback (codes "  patches:") (ctx, user_data)
        ≡ start_patches env meta_callback entry_callback ctx.mode (ctx, user_data)
  unfolding line_kind is_comment_or_empty get_indent_level skip_space isspace process_kind
      has_prefix trim ps3_plugins.Patch.Metadata.contains ps3_plugins.CString.strstr
      ps3_plugins.Text.Line.step_back
  process_line-patches ctx user_data =
      process_line-process_kind (codes "  patches:") (codes "patches:") patches_line
        (ctx, user_data) refl refl refl

  process_entry-parsed :
      (e : PatchEntry) (ctx : ParseContext) (user_data : S)
      → min_patch_params ≤ length e
      → parse_patch_entry (drop 2 (entry_text e)) ≡ e
      → ctx.in_patches_section ≡ true
      → process_entry env meta_callback entry_callback (entry_text e) (ctx, user_data)
        ≡ take_entry env meta_callback entry_callback env.build ctx.mode e (ctx, user_data)
  unfolding process_entry has_prefix
  process_entry-parsed e ctx user_data enough parsed in_section = ground (arith, parsed)

  -- A line of an entry in the section of the patches.
  pub process_line-entry_text :
      (e : PatchEntry) (ctx : ParseContext) (user_data : S)
      → IsEntry e
      → ctx.in_patches_section ≡ true
      → process_line env meta_callback entry_callback
          (codes "    " ++ entry_text e)
          (ctx, user_data)
        ≡ some (take_entry env meta_callback entry_callback env.build ctx.mode e (ctx, user_data))
  unfolding line_kind is_comment_or_empty get_indent_level skip_space isspace process_kind
      process_entry has_prefix
  process_line-entry_text e ctx user_data h in_section =
      process_line-process_kind (codes "    " ++ entry_text e) (entry_text e) other_line
        (ctx, user_data) refl (trim-entry_text e) h.kind
      ∙ ap some (process_entry-parsed e ctx user_data h.enough (entry_text-parsed e h) in_section)
