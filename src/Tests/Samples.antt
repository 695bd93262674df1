-- ===== src/Tests/Samples.antt =====
-- Printed patches and a console for the runs of the parser.
use ps3_plugins.Base.{◌≡◌, refl, true, false, some, List, [], ◌∷◌, ◌++◌, arith, Bytes, codes, same}
use ps3_plugins.Tests.Checks.{avoids-All}
use ps3_plugins.ProgramArgs.{ProgramArgs}
use ps3_plugins.GamePatchInfo.{GamePatchInfo}
use ps3_plugins.CString.{strstr, has_prefix}
use ps3_plugins.Text.Escape.Quote.{quote}
use ps3_plugins.Text.Items.Brackets.{items_text}
use ps3_plugins.Patch.Metadata.{contains, is_exe_matched, patch_matches_game}
use ps3_plugins.Patch.Line.{inner_kind}
use ps3_plugins.Patch.Document.{PatchText, IsEntry, IsPatch}
use ps3_plugins.Patch.Document.Rounds.{Console}
use ps3_plugins.Patch.Document.Reading.{first_metadata}
use ps3_plugins.Patch.{PatchEntry, PatchMetadata}

abbrev pub args : ProgramArgs
args = record {
  argc = 1;
  argv = some (codes "/EBOOT.BIN") ∷ [];
  new_argv = [];
  replace_args = [];
  changed = false;
  overruns = 0;
}

pub is_exe_matched-args :
    (bin : Bytes) → is_exe_matched (some args) bin ≡ some (contains (codes "/EBOOT.BIN") bin)
unfolding is_exe_matched
is_exe_matched-args bin = refl

-- A console on which every patch is enabled.
abbrev pub all_enabled : Console
all_enabled = record {
  signed_char = true;
  g_args = some args;
  read_patch_state = λ path hash. some true;
  exe_matched = λ bin. contains (codes "/EBOOT.BIN") bin;
  exe_known = is_exe_matched-args;
}

abbrev pub info : GamePatchInfo
info = record { titleid = codes "BLES1" ++ (0 ∷ []); app_ver = codes "01.00" ++ (0 ∷ []) }

abbrev pub entry : PatchEntry
entry = codes "be32" ∷ codes "0x10" ∷ codes "1" ∷ []

abbrev pub patch : PatchText
patch = record {
  title = codes "A";
  app_bin = codes "EBOOT.BIN";
  first = codes "01.00";
  others = [];
  entries = entry ∷ [];
}

-- The same for another version.
abbrev pub other_patch : PatchText
other_patch = record patch { first = codes "02.00" }

-- The same for two versions.
abbrev pub list_patch : PatchText
list_patch = record patch { first = codes "02.00"; others = codes "01.00" ∷ [] }

entry-IsEntry : IsEntry entry
unfolding inner_kind contains strstr has_prefix quote items_text
entry-IsEntry = record {
  listable = (
    (avoids-All 0 (codes "be32") refl, omega arith),
    (
      (avoids-All 0 (codes "0x10") refl, omega arith),
      ((avoids-All 0 (codes "1") refl, omega arith), tt),
    ),
  );
  enough = omega arith;
  fits = omega arith;
  line_fits = omega arith;
  kind = refl;
}

pub patch-IsPatch : IsPatch patch
unfolding inner_kind contains strstr has_prefix quote items_text
patch-IsPatch = record {
  title_no_nul = avoids-All 0 (codes "A") refl;
  app_bin_no_nul = avoids-All 0 (codes "EBOOT.BIN") refl;
  app_bin_kind = refl;
  versions_listable = ((avoids-All 0 (codes "01.00") refl, omega arith), tt);
  versions_fit = omega arith;
  versions_line_fits = omega arith;
  versions_kind = refl;
  entries = (entry-IsEntry, tt);
}

pub other_patch-IsPatch : IsPatch other_patch
unfolding inner_kind contains strstr has_prefix quote items_text
other_patch-IsPatch = record {
  title_no_nul = avoids-All 0 (codes "A") refl;
  app_bin_no_nul = avoids-All 0 (codes "EBOOT.BIN") refl;
  app_bin_kind = refl;
  versions_listable = ((avoids-All 0 (codes "02.00") refl, omega arith), tt);
  versions_fit = omega arith;
  versions_line_fits = omega arith;
  versions_kind = refl;
  entries = (entry-IsEntry, tt);
}

pub list_patch-IsPatch : IsPatch list_patch
unfolding inner_kind contains strstr has_prefix quote items_text
list_patch-IsPatch = record {
  title_no_nul = avoids-All 0 (codes "A") refl;
  app_bin_no_nul = avoids-All 0 (codes "EBOOT.BIN") refl;
  app_bin_kind = refl;
  versions_listable = (
    (avoids-All 0 (codes "02.00") refl, omega arith),
    ((avoids-All 0 (codes "01.00") refl, omega arith), tt),
  );
  versions_fit = omega arith;
  versions_line_fits = omega arith;
  versions_kind = refl;
  entries = (entry-IsEntry, tt);
}

pub is_match : patch_matches_game info (some (codes "01.00")) ≡ true
unfolding patch_matches_game same ps3_plugins.Text.Escape.c_string
is_match = refl

pub no_match : patch_matches_game info (some (codes "02.00")) ≡ false
unfolding patch_matches_game same ps3_plugins.Text.Escape.c_string
no_match = refl

-- Callbacks that note what they are called with.
abbrev pub note_meta : PatchMetadata → List PatchEntry → List PatchEntry
note_meta meta log = log ++ ((codes "meta" ∷ []) ∷ [])

abbrev pub note_entry : PatchMetadata → PatchEntry → List PatchEntry → List PatchEntry
note_entry meta e log = log ++ (e ∷ [])

pub is_enabled : (first_metadata all_enabled info note_meta note_entry patch 0).enabled ≡ true
unfolding contains strstr has_prefix
is_enabled = refl
