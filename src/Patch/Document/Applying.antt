-- ===== src/Patch/Document/Applying.antt =====
-- What the callbacks of the console plugin do with a printed patch.
use ps3_plugins.Base.{
  ◌≡◌, refl, sym, ap, ◌∙◌, inl, inr, Bool, true, false, some, List, [], ◌∷◌, if◌then◌else◌,
  Bool-cases, Bytes,
}
use ps3_plugins.GamePatchInfo.{GamePatchInfo}
use ps3_plugins.Patch.Metadata.{patch_matches_game}
use ps3_plugins.Patch.File.{parse_patch_file_low_mem, file_lines}
use ps3_plugins.Patch.Apply.{Game, apply_patch, metadata_callback, entry_callback}
use ps3_plugins.Patch.Document.{PatchText, IsPatch, document}
use ps3_plugins.Patch.Document.Rounds.{Console, console, metadata_of, announced}
use ps3_plugins.Patch.Document.Reading.{delivered, opened, parse_patch_file_low_mem-document}
use ps3_plugins.Patch.Document.Matching.{NoVersion, opened_first}
use ps3_plugins.Patch.{PatchMetadata, PatchEntry, low_mem, ParseContext, create_parse_context}

-- The entries of an enabled patch, done one after the other.
abbrev pub apply_all : List PatchEntry → Game → Game
apply_all [] game = game
apply_all (e ∷ entries) game = apply_all entries (apply_patch e game)

delivered-apply_all :
    (c : Console) (info : GamePatchInfo) (meta : PatchMetadata) (entries : List PatchEntry)
    (game : Game)
    → meta.enabled ≡ true
    → delivered c info metadata_callback entry_callback true meta entries game
      ≡ apply_all entries game
unfolding entry_callback
delivered-apply_all c info meta [] game h = refl
delivered-apply_all c info meta (e ∷ entries) game h =
    rw h (delivered-apply_all c info meta entries (apply_patch e game) h)

delivered_disabled :
    (c : Console) (info : GamePatchInfo) (flag : Bool) (meta : PatchMetadata)
    (entries : List PatchEntry) (game : Game)
    → meta.enabled ≡ false
    → delivered c info metadata_callback entry_callback flag meta entries game ≡ game
unfolding entry_callback
delivered_disabled c info flag meta [] game h = refl
delivered_disabled c info true meta (e ∷ entries) game h =
    rw h (delivered_disabled c info true meta entries game h)
delivered_disabled c info false meta (e ∷ entries) game h =
    delivered_disabled c info false meta entries game h

-- The flag is that of the metadata.
delivered-enabled :
    (c : Console) (info : GamePatchInfo) (meta : PatchMetadata) (entries : List PatchEntry)
    (game : Game)
    → delivered c info metadata_callback entry_callback meta.enabled meta entries game
      ≡ (if meta.enabled then apply_all entries game else game)
delivered-enabled c info meta entries game = elim (Bool-cases meta.enabled) [
  | inl e ↦
      ap (λ b. delivered c info metadata_callback entry_callback b meta entries game) e
      ∙ delivered-apply_all c info meta entries game e
      ∙ sym (ap (λ b. if b then apply_all entries game else game) e)
  | inr e ↦
      delivered_disabled c info meta.enabled meta entries game e
      ∙ sym (ap (λ b. if b then apply_all entries game else game) e)
]

-- What becomes of a file with one patch, by the flag and the data behind its versions.
one_patch :
    (c : Console) (info : GamePatchInfo) (p : PatchText) (game : Game) (flag : Bool) (game' : Game)
    → IsPatch p
    → opened c info metadata_callback entry_callback p 0 (false, game) ≡ (flag, game')
    → (ctx' : ParseContext) × (parse_patch_file_low_mem
          (console c)
          (some metadata_callback)
          (some entry_callback)
          (file_lines (document (p ∷ [])))
          (create_parse_context info low_mem, game)
        ≡ some (
          true,
          ctx',
          delivered c info metadata_callback entry_callback flag
              (metadata_of c info p 0 0 p.first)
              p.entries
              game',
        ))
one_patch c info p game flag game' h e =
    let (ctx', r) =
      parse_patch_file_low_mem-document c info metadata_callback entry_callback (p ∷ []) game
        (h, tt) in
    (
      ctx',
      r
          ∙ ap
              (λ (st : Bool × Game). some (
                true,
                ctx',
                delivered c info metadata_callback entry_callback st.0
                    (metadata_of c info p 0 0 p.first) p.entries st.1,
              ))
              e,
    )

open_second :
    (c : Console) (info : GamePatchInfo) (p : PatchText) (second : Bytes) (game : Game)
    → p.others ≡ second ∷ []
    → patch_matches_game info (some p.first) ≡ false
    → patch_matches_game info (some second) ≡ true
    → opened c info metadata_callback entry_callback p 0 (false, game) ≡ (
      (metadata_of c info p 0 1 second).enabled,
      metadata_callback (metadata_of c info p 0 1 second) game,
    )
open_second c info p second game others no_first matches =
    let rounds = announced c info metadata_callback entry_callback p 0 1 in
    ap (rounds p.others) (rw no_first) ∙ ap (λ vs. rounds vs (false, game)) others ∙ rw matches

-- The console plugin does the entries of a patch that is for the game by its first version alone, all
-- of them and in order, exactly where the patch is enabled, and counts the patch.
pub parse_patch_file_low_mem-apply_all :
    (c : Console) (info : GamePatchInfo) (p : PatchText) (game : Game)
    → IsPatch p
    → patch_matches_game info (some p.first) ≡ true
    → NoVersion info p.others
    → (ctx' : ParseContext) × (parse_patch_file_low_mem
          (console c)
          (some metadata_callback)
          (some entry_callback)
          (file_lines (document (p ∷ [])))
          (create_parse_context info low_mem, game)
        ≡ some (
          true,
          ctx',
          if (metadata_of c info p 0 0 p.first).enabled
              then apply_all p.entries (metadata_callback (metadata_of c info p 0 0 p.first) game)
              else metadata_callback (metadata_of c info p 0 0 p.first) game,
        ))
parse_patch_file_low_mem-apply_all c info p game h matches others =
    let m = metadata_of c info p 0 0 p.first in
    let (ctx', r) =
      one_patch c info p game m.enabled (metadata_callback m game) h
        (opened_first c info metadata_callback entry_callback p 0 (false, game) matches others) in
    (
      ctx',
      r
          ∙ ap (λ (g : Game). some (true, ctx', g))
              (delivered-enabled c info m p.entries (metadata_callback m game)),
    )

-- A patch whose second version is that of the game is counted, but none of its entries is done, where
-- it is not enabled for its first version, whatever its state for the second one.
pub parse_patch_file_low_mem_second :
    (c : Console) (info : GamePatchInfo) (p : PatchText) (second : Bytes) (game : Game)
    → IsPatch p
    → p.others ≡ second ∷ []
    → patch_matches_game info (some p.first) ≡ false
    → patch_matches_game info (some second) ≡ true
    → (metadata_of c info p 0 0 p.first).enabled ≡ false
    → (ctx' : ParseContext) × (parse_patch_file_low_mem
          (console c)
          (some metadata_callback)
          (some entry_callback)
          (file_lines (document (p ∷ [])))
          (create_parse_context info low_mem, game)
        ≡ some (true, ctx', metadata_callback (metadata_of c info p 0 1 second) game))
parse_patch_file_low_mem_second c info p second game h others no_first matches disabled =
    let m = metadata_of c info p 0 1 second in
    let (ctx', r) =
      one_patch c info p game m.enabled (metadata_callback m game) h
        (open_second c info p second game others no_first matches) in
    (
      ctx',
      r
          ∙ ap (λ (g : Game). some (true, ctx', g))
              (delivered_disabled c info m.enabled (metadata_of c info p 0 0 p.first) p.entries
                (metadata_callback m game) disabled),
    )
