-- ===== src/Patch/Run/Notices.antt =====
-- What the console plugin does with the patch file of a game, from the file on to the notice.
use ps3_plugins.Base.{
  ◌≡◌, refl, ap, ◌∙◌, inl, inr, Bool, true, false, Option, none, some, List, [], ◌∷◌, if◌then◌else◌,
  Bool-cases, Bytes, codes, same, All, Option-cases,
}
use ps3_plugins.ProgramArgs.{ProgramArgs}
use ps3_plugins.GamePatchInfo.{GamePatchInfo}
use ps3_plugins.Patch.Metadata.{patch_matches_game, decimal}
use ps3_plugins.Patch.File.{Source, file_lines}
use ps3_plugins.Patch.Apply.{
  Game, apply_patch, metadata_callback, entry_callback, write_patch, write_width, append_args,
  append_entry,
}
use ps3_plugins.Patch.Document.{PatchText, IsPatch, document}
use ps3_plugins.Patch.Document.Rounds.{Console, console, metadata_of}
use ps3_plugins.Patch.Document.Matching.{NoVersion, parse_patch_file_low_mem_unmatched}
use ps3_plugins.Patch.Document.Applying.{apply_all, parse_patch_file_low_mem-apply_all}
use ps3_plugins.Patch.Run.{written, deleted, patch_path, outcome, run_patch}
use ps3_plugins.Patch.{PatchEntry}

-- Where no patch of the file is for the version of the game, the notice is deleted, the result is 1 and
-- the game stays as it is.
pub run_patch_unmatched :
    (c : Console) (info : GamePatchInfo) (files : Bytes → Source) (patches : List PatchText)
    (game : Game)
    → files (patch_path info) ≡ file_lines (document patches)
    → All IsPatch patches
    → All (λ p. NoVersion info (p.first ∷ p.others)) patches
    → run_patch (console c) files info game ≡ some ((1, deleted), record game { count = 0 })
unfolding run_patch outcome
run_patch_unmatched c info files patches game e h k =
    let (ctx', r) =
      parse_patch_file_low_mem_unmatched c info metadata_callback entry_callback patches
        (record game { count = 0 }) h k in
    rw e (rw r)

-- Entries do not touch the count.
appended_count :
    (g_args : Option ProgramArgs) (params : List Bytes) (game : Game)
    → (elim g_args as (λ _. Game) [
      | none ↦ game
      | some pargs ↦ record game { g_args = some (append_args params pargs) }
    ]).count
      ≡ game.count
appended_count none params game = refl
appended_count (some pargs) params game = refl

append_entry_count :
    (params : List Bytes) (game : Game) → (append_entry params game).count ≡ game.count
unfolding append_entry
append_entry_count params game = appended_count game.g_args params game

apply_patch_count : (e : PatchEntry) (game : Game) → (apply_patch e game).count ≡ game.count
unfolding apply_patch write_patch
apply_patch_count [] game = refl
apply_patch_count (type ∷ []) game = refl
apply_patch_count (type ∷ address ∷ []) game = refl
apply_patch_count (type ∷ address ∷ value ∷ more) game = elim (Option-cases (write_width type)) [
  | inr (n, e) ↦ rw (e, apply_patch)
  | inl e ↦ elim (Bool-cases (same type (codes "append_arg"))) [
    | inl k ↦ rw (e, apply_patch) (rw k (append_entry_count (address ∷ value ∷ more) game))
    | inr k ↦ rw (e, apply_patch) (rw k)
  ]
]

apply_all_count :
    (entries : List PatchEntry) (game : Game) → (apply_all entries game).count ≡ game.count
apply_all_count [] game = refl
apply_all_count (e ∷ entries) game =
    apply_all_count entries (apply_patch e game) ∙ apply_patch_count e game

counted_once :
    (enabled : Bool) (entries : List PatchEntry) (game : Game)
    → game.count ≡ 1
    → (if enabled then apply_all entries game else game).count ≡ 1
counted_once true entries game h = apply_all_count entries game ∙ h
counted_once false entries game h = h

one_patch_outcome : outcome true 1 ≡ (0, written (codes "Applied 1 patch"))
unfolding outcome decimal
one_patch_outcome = refl

-- For a file with one patch, which is for the version of the game, the notice counts one patch, the
-- result is 0, and the entries are done where the patch is enabled.
pub run_patch-apply_all :
    (c : Console) (info : GamePatchInfo) (files : Bytes → Source) (p : PatchText) (game : Game)
    → files (patch_path info) ≡ file_lines (document (p ∷ []))
    → IsPatch p
    → patch_matches_game info (some p.first) ≡ true
    → NoVersion info p.others
    → run_patch (console c) files info game
      ≡ some (
        (0, written (codes "Applied 1 patch")),
        if (metadata_of c info p 0 0 p.first).enabled
            then apply_all p.entries (record game { count = 1 })
            else record game { count = 1 },
      )
unfolding run_patch metadata_callback
run_patch-apply_all c info files p game e h matches others =
    let (ctx', r) =
      parse_patch_file_low_mem-apply_all c info p (record game { count = 0 }) h matches others in
    let done =
      if (metadata_of c info p 0 0 p.first).enabled
      then apply_all p.entries (record game { count = 1 })
      else record game { count = 1 } in
    let counted : done.count ≡ 1 =
      counted_once (metadata_of c info p 0 0 p.first).enabled p.entries (record game { count = 1 })
        refl in
    rw e (rw r (ap (λ n. some (n, done)) (ap (outcome true) counted ∙ one_patch_outcome)))
