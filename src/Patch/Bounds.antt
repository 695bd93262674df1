-- ===== src/Patch/Bounds.antt =====
-- What is put into the arrays of a ParseContext, and the end of a patch.
pub mod Lines
use ps3_plugins.Base.{
  ℕ, ◌+◌, ◌≤◌, ◌≡◌, refl, inl, inr, Bool, true, false, Option, none, some, List, [], ◌∷◌, arith,
  if◌then◌else◌, Bool-cases, Bytes, same, length, All, All-append, ◌>>=◌,
}
use ps3_plugins.Text.Items.{max_patch_params, parse_patch_entry}
use ps3_plugins.Text.Items.Fuel.{parse_string_list-length}
use ps3_plugins.CString.{has_prefix}
use ps3_plugins.Text.Line.{is_comment_or_empty, get_indent_level, trim, is_list_value}
use ps3_plugins.Text.Quoted.{parse_quoted_string}
use ps3_plugins.GamePatchInfo.{app_ver_text}
use ps3_plugins.Patch.Metadata.{process_patch_metadata_for_app_ver}
use ps3_plugins.Patch.Complete.{
  grown, push_patch, push_metadata, title_matches, complete_all, complete_metadata, complete_round,
  complete_loop, version_rounds, finish_patch, handle_patch_complete,
}
use ps3_plugins.Patch.Line.{
  Field, LineKind, set_field, set_titleids, set_app_ver, single, announce, announce_loop,
  start_patches, take_entry, process_entry, process_kind, process_line, line_kind,
}
use ps3_plugins.Patch.{
  Patch, PatchMetadata, PatchEntry, ParseMode, Build, Env, ParseContext, size_mod, max_title_ids,
  max_app_vers, min_patch_params,
}

-- The parameters of a stored entry.
abbrev pub IsEntryBounded : PatchEntry → Type 0
IsEntryBounded e = (min_patch_params ≤ length e) × (length e ≤ max_patch_params)

-- The arrays are used within their sizes, and so are those of the entries.
pub record IsBounded (ctx : ParseContext) : Type 0 where
  pub titleids : length ctx.global_titleids ≤ max_title_ids
  pub app_vers : length ctx.current_patch.app_ver ≤ max_app_vers
  pub entries : All IsEntryBounded ctx.current_entries
  pub patches : All (λ patch. All IsEntryBounded patch.entries) ctx.all_patches

-- A property of what a call leaves, where it returns.
abbrev pub Leaves {ℓ} : {A : Type ℓ} (P : A → Type 0) → Option A → Type 0
Leaves P none = Unit
Leaves P (some a) = P a

Leaves-bind {ℓ κ} :
    {A : Type ℓ} {B : Type κ} (P : A → Type 0) (Q : B → Type 0) (o : Option A) (f : A → Option B)
    → Leaves P o
    → ((a : A) → P a → Leaves Q (f a))
    → Leaves Q (o >>= f)
Leaves-bind P Q none f h k = tt
Leaves-bind P Q (some a) f h k = k a h

abbrev Any {ℓ} : {A : Type ℓ} → A → Type 0
Any a = Unit

Leaves-Any {ℓ} : {A : Type ℓ} (o : Option A) → Leaves Any o
Leaves-Any none = tt
Leaves-Any (some a) = tt

push_patch-IsBounded :
    (meta : PatchMetadata) (ctx : ParseContext) → IsBounded ctx → IsBounded (push_patch meta ctx)
unfolding push_patch
push_patch-IsBounded meta ctx h = record {
  titleids = h.titleids;
  app_vers = h.app_vers;
  entries = h.entries;
  patches = All-append _ ctx.all_patches _ h.patches (h.entries, tt);
}

push_metadata-IsBounded :
    (meta : PatchMetadata) (ctx : ParseContext) → IsBounded ctx → IsBounded (push_metadata meta ctx)
unfolding push_metadata
push_metadata-IsBounded meta ctx h = record {
  titleids = h.titleids;
  app_vers = h.app_vers;
  entries = h.entries;
  patches = h.patches;
}

pushed_or_not :
    (meta : PatchMetadata) (ctx : ParseContext)
    → IsBounded ctx
    → (matched : Bool) → IsBounded (if matched then push_patch meta ctx else ctx)
pushed_or_not meta ctx h true = push_patch-IsBounded meta ctx h
pushed_or_not meta ctx h false = h

complete_round-IsBounded :
    (build : Build) (mode : ParseMode) (env : Env) (v : Option Bytes) (i : ℕ) (ctx : ParseContext)
    → IsBounded ctx
    → Leaves IsBounded (complete_round build mode env v i ctx)
unfolding complete_round complete_all complete_metadata
complete_round-IsBounded Build.prx mode env v i ctx h = h
complete_round-IsBounded Build.tools ParseMode.low_mem env v i ctx h = h
complete_round-IsBounded Build.tools ParseMode.metadata env v i ctx h =
    Leaves-bind Any IsBounded (process_patch_metadata_for_app_ver env ctx v i) _ (Leaves-Any _)
      (λ meta _. push_metadata-IsBounded meta ctx h)
complete_round-IsBounded Build.tools ParseMode.all env none i ctx h = tt
complete_round-IsBounded Build.tools ParseMode.all env (some v) i ctx h =
    elim (Bool-cases (same v (app_ver_text ctx.game_info))) [
      | inr e ↦ rw e h
      | inl e ↦ rw e (
          Leaves-bind Any IsBounded (process_patch_metadata_for_app_ver env ctx (some v) i) _
            (Leaves-Any _)
            (λ meta _.
              Leaves-bind Any IsBounded (title_matches ctx.title meta.title) _ (Leaves-Any _)
                (λ matched _. pushed_or_not meta ctx h matched)))
    ]

complete_loop-IsBounded :
    (env : Env) (vs : List (Option Bytes)) (i : ℕ) (ctx : ParseContext)
    → IsBounded ctx
    → Leaves IsBounded (complete_loop env vs i ctx)
unfolding complete_loop
complete_loop-IsBounded env [] i ctx h = h
complete_loop-IsBounded env (v ∷ vs) i ctx h =
    Leaves-bind IsBounded IsBounded (complete_round env.build ctx.mode env v i ctx) _
      (complete_round-IsBounded env.build ctx.mode env v i ctx h)
      (λ ctx' h'. complete_loop-IsBounded env vs (i + 1) ctx' h')

finish_patch-IsBounded : (ctx : ParseContext) → IsBounded ctx → IsBounded (finish_patch ctx)
unfolding finish_patch
finish_patch-IsBounded ctx h = record {
  titleids = h.titleids;
  app_vers = omega arith;
  entries = tt;
  patches = h.patches;
}

-- The branches of `handle_patch_complete` on the title.
completed-IsBounded :
    (env : Env) (ctx : ParseContext) (title : Option Bytes)
    → IsBounded ctx
    → Leaves IsBounded (elim title [
      | none ↦ some ctx
      | some _ ↦ do
        ctx' ← complete_loop env (version_rounds ctx.current_patch.app_ver) 0 ctx
        some (finish_patch ctx')
    ])
completed-IsBounded env ctx none h = h
completed-IsBounded env ctx (some title) h =
    Leaves-bind IsBounded IsBounded
      (complete_loop env (version_rounds ctx.current_patch.app_ver) 0 ctx) _
      (complete_loop-IsBounded env (version_rounds ctx.current_patch.app_ver) 0 ctx h)
      (λ ctx' h'. finish_patch-IsBounded ctx' h')

pub handle_patch_complete-IsBounded :
    (env : Env) (ctx : ParseContext)
    → IsBounded ctx
    → Leaves IsBounded (handle_patch_complete env ctx)
unfolding handle_patch_complete
handle_patch_complete-IsBounded env ctx h = completed-IsBounded env ctx ctx.current_patch.title h

pub set_field-app_vers :
    (field : Field) (value : Option Bytes) (patch : Patch)
    → length (set_field field value patch).app_ver ≡ length patch.app_ver
unfolding set_field
set_field-app_vers Field.title value patch = refl
set_field-app_vers Field.name value patch = refl
set_field-app_vers Field.notes value patch = refl
set_field-app_vers Field.author value patch = refl
set_field-app_vers Field.version value patch = refl
set_field-app_vers Field.app_bin value patch = refl

pub set_app_ver-app_vers :
    (trimmed : Bytes) (patch : Patch) → length (set_app_ver trimmed patch).app_ver ≤ max_app_vers
unfolding set_app_ver
set_app_ver-app_vers trimmed patch = elim (Bool-cases (is_list_value trimmed)) [
  | inl e ↦ rw e (parse_string_list-length trimmed max_app_vers).0
  | inr e ↦ rw e (single-length (parse_quoted_string trimmed))
]
  where
    single-length : (v : Option Bytes) → length (single v) ≤ max_app_vers
    single-length none = omega arith
    single-length (some v) = omega arith

pub with_patch :
    (patch : Patch) (ctx : ParseContext)
    → IsBounded ctx
    → length patch.app_ver ≤ max_app_vers
    → IsBounded (record ctx { current_patch = patch })
with_patch patch ctx h few = record {
  titleids = h.titleids;
  app_vers = few;
  entries = h.entries;
  patches = h.patches;
}

pub set_titleids-IsBounded :
    (trimmed : Bytes) (ctx : ParseContext) → IsBounded ctx → IsBounded (set_titleids trimmed ctx)
unfolding set_titleids
set_titleids-IsBounded trimmed ctx h = elim (Bool-cases (is_list_value trimmed)) [
  | inr e ↦ rw e h
  | inl e ↦ rw e (record {
    titleids = (parse_string_list-length trimmed max_title_ids).0;
    app_vers = h.app_vers;
    entries = h.entries;
    patches = h.patches;
  })
]
