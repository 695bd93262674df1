-- ===== src/Patch/Document.antt =====
-- A printed patch file, and what PARSE_MODE_LOW_MEM does with it. Lines has the single lines,
-- Rounds the rounds over the versions, Reading a whole file.
pub mod Lines
pub mod Rounds
pub mod Reading
pub mod Matching
pub mod Applying
pub mod Toggling
use ps3_plugins.Base.{
  ◌-◌, ◌≤◌, ◌≡◌, ◌≢◌, true, some, List, [], ◌∷◌, ◌++◌, Bytes, codes, length, All,
}
use ps3_plugins.Text.Escape.Quote.{quote}
use ps3_plugins.Text.Items.{max_line_length, max_patch_params}
use ps3_plugins.Text.Items.RoundTrip.{list_line}
use ps3_plugins.Text.Items.Brackets.{IsListable}
use ps3_plugins.Patch.Line.{inner_kind, field_line, app_bin, app_ver_line, other_line}
use ps3_plugins.Patch.{Patch, empty_patch, PatchEntry, min_patch_params, max_app_vers}

-- A patch as it is written: with at least one version.
pub record PatchText : Type 0 where
  pub title : Bytes
  pub app_bin : Bytes
  pub first : Bytes
  pub others : List Bytes
  pub entries : List PatchEntry

-- The lines without their indentation.
abbrev pub title_text : Bytes → Bytes
title_text title = codes "title: " ++ quote title

abbrev pub app_bin_text : Bytes → Bytes
app_bin_text bin = codes "app_bin: " ++ quote bin

abbrev pub app_ver_text : List Bytes → Bytes
app_ver_text versions = list_line (codes "app_ver: ") versions []

abbrev pub entry_text : PatchEntry → Bytes
entry_text entry = list_line (codes "- ") entry []

abbrev pub entry_lines : List PatchEntry → List Bytes
entry_lines [] = []
entry_lines (e ∷ entries) = (codes "    " ++ entry_text e) ∷ entry_lines entries

abbrev pub patch_lines : PatchText → List Bytes
patch_lines p =
    codes "patch:"
    ∷ (codes "  " ++ title_text p.title)
    ∷ (codes "  " ++ app_bin_text p.app_bin)
    ∷ (codes "  " ++ app_ver_text (p.first ∷ p.others))
    ∷ codes "  patches:"
    ∷ entry_lines p.entries

abbrev pub document : List PatchText → List Bytes
document [] = []
document (p ∷ patches) = patch_lines p ++ document patches

-- The patch that the fields stand for.
abbrev pub patch_of : PatchText → Patch
patch_of p = record empty_patch {
  title = some p.title;
  app_bin = some p.app_bin;
  app_ver = p.first ∷ p.others;
  is_app_ver_list = true;
}

-- An entry that can be written: its parameters fit, and its line is not taken for another one.
pub record IsEntry (e : PatchEntry) : Type 0 where
  pub listable : All IsListable e
  pub enough : min_patch_params ≤ length e
  pub fits : length e ≤ max_patch_params
  pub line_fits : length (entry_text e) ≤ max_line_length
  pub kind : inner_kind (entry_text e) ≡ other_line

-- A patch that can be written: no line is taken for another one, and the versions fit.
pub record IsPatch (p : PatchText) : Type 0 where
  pub title_no_nul : All (λ c. c ≢ 0) p.title
  pub app_bin_no_nul : All (λ c. c ≢ 0) p.app_bin
  pub app_bin_kind : inner_kind (app_bin_text p.app_bin) ≡ field_line app_bin
  pub versions_listable : All IsListable (p.first ∷ p.others)
  pub versions_fit : length (p.first ∷ p.others) ≤ max_app_vers
  pub versions_line_fits : length (app_ver_text (p.first ∷ p.others)) ≤ max_line_length
  pub versions_kind : inner_kind (app_ver_text (p.first ∷ p.others)) ≡ app_ver_line
  pub entries : All IsEntry p.entries
