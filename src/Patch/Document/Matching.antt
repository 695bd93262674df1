-- ===== src/Patch/Document/Matching.antt =====
-- Which patches of a printed file reach the callbacks.
use ps3_plugins.Base.{
  ℕ, ◌+◌, ◌%◌, ◌≡◌, refl, ap, ◌∙◌, Bool, true, false, some, List, [], ◌∷◌, Bytes, All,
}
use ps3_plugins.GamePatchInfo.{GamePatchInfo}
use ps3_plugins.Patch.Metadata.{patch_matches_game}
use ps3_plugins.Patch.File.{parse_patch_file_low_mem, file_lines}
use ps3_plugins.Patch.Document.{PatchText, IsPatch, document}
use ps3_plugins.Patch.Document.Rounds.{announced_one, Console, console, announced}
use ps3_plugins.Patch.Document.Reading.{
  delivered, first_metadata, opened, read_all, parse_patch_file_low_mem-document,
}
use ps3_plugins.Patch.{
  PatchMetadata, PatchEntry, low_mem, ParseContext, create_parse_context, size_mod,
}

-- None of these versions is that of the game.
abbrev pub NoVersion : GamePatchInfo → List Bytes → Type 0
NoVersion info versions = All (λ v. patch_matches_game info (some v) ≡ false) versions

module _ {ℓ} {S : Type ℓ} (c : Console) (info : GamePatchInfo)
    (meta_callback : PatchMetadata → S → S)
    (entry_callback : PatchMetadata → PatchEntry → S → S) where
  pub announced_unmatched :
      (p : PatchText) (n i : ℕ) (versions : List Bytes) (st : Bool × S)
      → NoVersion info versions
      → announced c info meta_callback entry_callback p n i versions st ≡ st
  announced_unmatched p n i [] st h = refl
  announced_unmatched p n i (v ∷ versions) st h =
      rw h.0 (announced_unmatched p n (i + 1) versions st h.1)

  -- A patch for the game by its first version alone.
  pub opened_first :
      (p : PatchText) (n : ℕ) (st : Bool × S)
      → patch_matches_game info (some p.first) ≡ true
      → NoVersion info p.others
      → opened c info meta_callback entry_callback p n st ≡ (
        (first_metadata c info meta_callback entry_callback p n).enabled,
        meta_callback (first_metadata c info meta_callback entry_callback p n) st.1,
      )
  opened_first p n st h k =
      let m = first_metadata c info meta_callback entry_callback p n in
      announced_unmatched p n 1 p.others (announced_one c info meta_callback entry_callback m st) k
      ∙ rw h

  pub delivered_unset :
      (meta : PatchMetadata) (entries : List PatchEntry) (user_data : S)
      → delivered c info meta_callback entry_callback false meta entries user_data ≡ user_data
  delivered_unset meta [] user_data = refl
  delivered_unset meta (e ∷ entries) user_data = delivered_unset meta entries user_data

  read_all_unmatched :
      (patches : List PatchText) (n : ℕ) (user_data : S)
      → All (λ p. NoVersion info (p.first ∷ p.others)) patches
      → read_all c info meta_callback entry_callback n false user_data patches ≡ user_data
  read_all_unmatched [] n user_data h = refl
  read_all_unmatched (p ∷ patches) n user_data h =
      let m = first_metadata c info meta_callback entry_callback p n in
      let go = read_all c info meta_callback entry_callback ((n + 1) % size_mod) in
      ap
        (λ (st : Bool × S).
          go st.0 (delivered c info meta_callback entry_callback st.0 m p.entries st.1) patches)
        (announced_unmatched p n 0 (p.first ∷ p.others) (false, user_data) h.0)
      ∙ ap (λ (u : S). go false u patches) (delivered_unset m p.entries user_data)
      ∙ read_all_unmatched patches ((n + 1) % size_mod) user_data h.1

  -- A file in which no patch is for the version of the game is read to its end without a call.
  pub parse_patch_file_low_mem_unmatched :
      (patches : List PatchText) (user_data : S)
      → All IsPatch patches
      → All (λ p. NoVersion info (p.first ∷ p.others)) patches
      → (ctx' : ParseContext) × (parse_patch_file_low_mem
            (console c)
            (some meta_callback)
            (some entry_callback)
            (file_lines (document patches))
            (create_parse_context info low_mem, user_data)
          ≡ some (true, ctx', user_data))
  parse_patch_file_low_mem_unmatched patches user_data h k =
      let (ctx', e) =
        parse_patch_file_low_mem-document c info meta_callback entry_callback patches user_data h in
      (ctx', e ∙ ap (λ (u : S). some (true, ctx', u)) (read_all_unmatched patches 0 user_data k))

  -- The entries of a patch for another version of the game are passed on as well where the patch in
  -- front of it is for the version of the game and enabled.
  pub parse_patch_file_low_mem_stale :
      (p q : PatchText) (user_data : S)
      → All IsPatch (p ∷ q ∷ [])
      → patch_matches_game info (some p.first) ≡ true
      → NoVersion info p.others
      → (first_metadata c info meta_callback entry_callback p 0).enabled ≡ true
      → NoVersion info (q.first ∷ q.others)
      → (ctx' : ParseContext) × (parse_patch_file_low_mem
            (console c)
            (some meta_callback)
            (some entry_callback)
            (file_lines (document (p ∷ q ∷ [])))
            (create_parse_context info low_mem, user_data)
          ≡ some (
            true,
            ctx',
            delivered c info meta_callback entry_callback true
                (first_metadata c info meta_callback entry_callback q 1)
                q.entries
                (delivered c info meta_callback entry_callback true
                  (first_metadata c info meta_callback entry_callback p 0)
                  p.entries
                  (meta_callback
                    (first_metadata c info meta_callback entry_callback p 0)
                    user_data)),
          ))
  parse_patch_file_low_mem_stale p q user_data h matches others enabled no_match =
      let (ctx', e) =
        parse_patch_file_low_mem-document c info meta_callback entry_callback (p ∷ q ∷ []) user_data
          h in
      let mp = first_metadata c info meta_callback entry_callback p 0 in
      let mq = first_metadata c info meta_callback entry_callback q 1 in
      let give = delivered c info meta_callback entry_callback in
      let last : Bool × S → S = λ st. give st.0 mq q.entries st.1 in
      let first : Bool × S → S = λ st.
        last (opened c info meta_callback entry_callback q 1 (st.0, give st.0 mp p.entries st.1)) in
      let started : opened c info meta_callback entry_callback p 0 (false, user_data)
          ≡ (true, meta_callback mp user_data) =
        opened_first p 0 (false, user_data) matches others
        ∙ ap (λ (b : Bool). (b, meta_callback mp user_data)) enabled in
      (
        ctx',
        e
            ∙ ap (λ (u : S). some (true, ctx', u))
                (ap first started
                  ∙ ap last (
                      announced_unmatched q 1 0 (q.first ∷ q.others)
                        (true, give true mp p.entries (meta_callback mp user_data)) no_match)),
      )
