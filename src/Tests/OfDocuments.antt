-- ===== src/Tests/OfDocuments.antt =====
-- Whole patch files of game_patch/patch.c.
use ps3_plugins.Tests.Samples.{
  all_enabled, info, entry, patch, other_patch, list_patch, patch-IsPatch, other_patch-IsPatch,
  list_patch-IsPatch, is_match, no_match, note_meta, note_entry, is_enabled,
}
use ps3_plugins.Base.{
  ℕ, ◌≡◌, refl, ap, true, false, not, ◌&&◌, Option, none, some, [], ◌∷◌, arith, ◌==◌, ==_self,
  Bytes, codes, replicate,
}
use ps3_plugins.CString.{strstr, has_prefix}
use ps3_plugins.GamePatchInfo.{titleid_text}
use ps3_plugins.Patch.Metadata.{contains, settings_path}
use ps3_plugins.Patch.Bounds.{Leaves}
use ps3_plugins.Patch.Bounds.Lines.{Bounded, process_lines-IsBounded}
use ps3_plugins.Patch.Run.{run_patch, deleted}
use ps3_plugins.Patch.Run.Notices.{run_patch_unmatched}
use ps3_plugins.Patch.File.{process_lines, parse_patch_file_low_mem, file_lines}
use ps3_plugins.Patch.Apply.{Game, metadata_callback, entry_callback}
use ps3_plugins.Patch.Document.{document}
use ps3_plugins.Patch.Document.Rounds.{Console, console, metadata_of}
use ps3_plugins.Patch.Document.Reading.{read_all, parse_patch_file_low_mem-document}
use ps3_plugins.Patch.Document.Matching.{parse_patch_file_low_mem_stale}
use ps3_plugins.PatchState.{read_patch_state, read_patch_states_internal}
use ps3_plugins.Patch.Document.Toggling.{
  with_files, replaced, toggled_file, parse_patch_file_low_mem-toggle_patch_state,
}
use ps3_plugins.Patch.Document.Applying.{
  apply_all, parse_patch_file_low_mem-apply_all, parse_patch_file_low_mem_second,
}
use ps3_plugins.Patch.{ParseContext, low_mem, all, create_parse_context}

parse_patch_file_low_mem-document_example :
    (ctx' : ParseContext) × (parse_patch_file_low_mem
        (console all_enabled)
        (some note_meta)
        (some note_entry)
        (file_lines (document (patch ∷ other_patch ∷ [])))
        (create_parse_context info low_mem, [])
      ≡ some (
        true,
        ctx',
        read_all all_enabled info note_meta note_entry 0 false [] (patch ∷ other_patch ∷ []),
      ))
parse_patch_file_low_mem-document_example =
    parse_patch_file_low_mem-document all_enabled info note_meta note_entry
      (patch ∷ other_patch ∷ []) [] (patch-IsPatch, (other_patch-IsPatch, tt))

parse_patch_file_low_mem_stale_example :
    (ctx' : ParseContext) × (parse_patch_file_low_mem
        (console all_enabled)
        (some note_meta)
        (some note_entry)
        (file_lines (document (patch ∷ other_patch ∷ [])))
        (create_parse_context info low_mem, [])
      ≡ some (true, ctx', (codes "meta" ∷ []) ∷ entry ∷ entry ∷ []))
parse_patch_file_low_mem_stale_example =
    parse_patch_file_low_mem_stale all_enabled info note_meta note_entry patch other_patch []
      (patch-IsPatch, (other_patch-IsPatch, tt)) is_match tt is_enabled (no_match, tt)

abbrev game : Game
game = record { g_args = none; writes = []; count = 0 }

parse_patch_file_low_mem-apply_all_example :
    (ctx' : ParseContext) × (parse_patch_file_low_mem
        (console all_enabled)
        (some metadata_callback)
        (some entry_callback)
        (file_lines (document (patch ∷ [])))
        (create_parse_context info low_mem, game)
      ≡ some (
        true,
        ctx',
        apply_all
            (entry ∷ [])
            (metadata_callback (metadata_of all_enabled info patch 0 0 (codes "01.00")) game),
      ))
unfolding contains strstr has_prefix
parse_patch_file_low_mem-apply_all_example =
    parse_patch_file_low_mem-apply_all all_enabled info patch game patch-IsPatch is_match tt

-- A console on which the patch with the hash of the first version is off.
abbrev first_hash : ℕ
first_hash = (metadata_of all_enabled info list_patch 0 0 (codes "02.00")).hash

abbrev second_enabled : Console
second_enabled = record all_enabled {
  read_patch_state = λ path hash. some (not (hash == first_hash));
}

first_disabled : (metadata_of second_enabled info list_patch 0 0 (codes "02.00")).enabled ≡ false
unfolding contains strstr has_prefix
first_disabled = ap (λ b. not b && true) (==_self first_hash)

parse_patch_file_low_mem_second_example :
    (ctx' : ParseContext) × (parse_patch_file_low_mem
        (console second_enabled)
        (some metadata_callback)
        (some entry_callback)
        (file_lines (document (list_patch ∷ [])))
        (create_parse_context info low_mem, game)
      ≡ some (
        true,
        ctx',
        metadata_callback (metadata_of second_enabled info list_patch 0 1 (codes "01.00")) game,
      ))
parse_patch_file_low_mem_second_example =
    parse_patch_file_low_mem_second second_enabled info list_patch (codes "01.00") game
      list_patch-IsPatch refl no_match is_match first_disabled

-- No file of patch states.
abbrev no_files : Bytes → Option Bytes
no_files path = none

parse_patch_file_low_mem-toggle_patch_state_example :
    let path = settings_path (titleid_text info) in
    let toggled = replaced no_files path (toggled_file all_enabled info patch none) in
    (ctx' : ParseContext) × (parse_patch_file_low_mem
        (console (with_files all_enabled (replicate 12 0) toggled))
        (some metadata_callback)
        (some entry_callback)
        (file_lines (document (patch ∷ [])))
        (create_parse_context info low_mem, game)
      ≡ some (true, ctx', apply_all (entry ∷ []) (record game { count = 1 })))
unfolding contains strstr has_prefix read_patch_state read_patch_states_internal
parse_patch_file_low_mem-toggle_patch_state_example =
    parse_patch_file_low_mem-toggle_patch_state all_enabled info patch (replicate 12 0) no_files
      game patch-IsPatch is_match tt tt (omega arith)

process_lines-IsBounded_example :
    Leaves (Bounded (console all_enabled) (some note_meta) (some note_entry)) (
      process_lines
        (console all_enabled)
        (some note_meta)
        (some note_entry)
        (document (patch ∷ list_patch ∷ []))
        (create_parse_context info all, []))
process_lines-IsBounded_example =
    process_lines-IsBounded (console all_enabled) (some note_meta) (some note_entry)
      (document (patch ∷ list_patch ∷ [])) info all []

run_patch_unmatched_example :
    run_patch (console all_enabled) (λ path. file_lines (document (other_patch ∷ []))) info game
    ≡ some ((1, deleted), game)
run_patch_unmatched_example =
    run_patch_unmatched all_enabled info (λ path. file_lines (document (other_patch ∷ [])))
      (other_patch ∷ []) game refl (other_patch-IsPatch, tt) ((no_match, tt), tt)
