-- ===== src/Vsh/Files/Start.antt =====
-- What the XMB plugin leaves on disk: at its start, and for each started game.
use ps3_plugins.Base.{
  ℕ, zero, suc, ◌-◌, ◌≤◌, ◌≡◌, refl, sym, ap, ◌∙◌, ◌≢◌, inl, inr, Bool, true, false, Option, none,
  some, [], ◌∷◌, ◌++◌, append_assoc, arith, ◌==◌, ==_iff, ==_self, Bytes, codes, same, same_self,
  length, take, drop, replicate, length-append, take_exact, drop_exact,
}
use ps3_plugins.GamePatchInfo.{GamePatchInfo, load_game_info}
use ps3_plugins.Vsh.Files.{
  Node, file, folder, FileSystem, Stdio, write_file, write_default_blob, load_plugin_main,
  make_folders, game_info_bytes, game_info_path, notify_path, plugins_path, bootloader_path,
  check_byte, vsh_stringid,
}
use ps3_plugins.Vsh.Files.Calls.{
  Works, put, remove, made_folder, kept, write_file_lem, write_default_blob_lem,
}

-- What the other plugins read of a path.
abbrev pub content : Option Node → Option Bytes
content (some (file bytes)) = some bytes
content _ = none

-- An array of characters that the text leaves partly empty.
abbrev pub padded : ℕ → Bytes → Bytes
padded n text = text ++ replicate (n - length text) 0

-- What the plugin writes of a title id and a version.
abbrev pub info_of : Bytes → Bytes → GamePatchInfo
info_of titleid app_ver = record { titleid = padded 16 titleid; app_ver = padded 8 app_ver }

length-replicate : (n a : ℕ) → length (replicate n a) ≡ n
length-replicate zero a = refl
length-replicate (suc n) a = ap suc (length-replicate n a)

length-padded : (n : ℕ) (text : Bytes) → length text ≤ n → length (padded n text) ≡ n
length-padded n text h = omega (
  arith,
  length-append text (replicate (n - length text) 0),
  length-replicate (n - length text) 0,
)

-- The structure that is written is the one that is loaded.
load_game_info-bytes :
    (titleid app_ver : Bytes)
    → length titleid ≤ 16
    → length app_ver ≤ 8
    → load_game_info (some (padded 16 titleid ++ padded 8 app_ver))
      ≡ some (record { titleid = padded 16 titleid; app_ver = padded 8 app_ver })
unfolding load_game_info
load_game_info-bytes titleid app_ver ht ha =
    rw whole (λ i. some (record { titleid = first i; app_ver = second i }))
  where
    sixteen : length (padded 16 titleid) ≡ 16
    sixteen = length-padded 16 titleid ht

    whole : (length (padded 16 titleid ++ padded 8 app_ver) == 24) ≡ true
    whole = (==_iff _ 24).1 (
        omega (
          arith,
          length-append (padded 16 titleid) (padded 8 app_ver),
          sixteen,
          length-padded 8 app_ver ha,
        ))

    first : take 16 (padded 16 titleid ++ padded 8 app_ver) ≡ padded 16 titleid
    first =
        ap (λ n. take n (padded 16 titleid ++ padded 8 app_ver)) (sym sixteen)
        ∙ take_exact (padded 16 titleid) (padded 8 app_ver)

    second : drop 16 (padded 16 titleid ++ padded 8 app_ver) ≡ padded 8 app_ver
    second =
        ap (λ n. drop n (padded 16 titleid ++ padded 8 app_ver)) (sym sixteen)
        ∙ drop_exact (padded 16 titleid) (padded 8 app_ver)

distinct : same game_info_path notify_path ≡ false
unfolding same
distinct = refl

distinct' : same notify_path game_info_path ≡ false
unfolding same
distinct' = refl

work_apart : same (codes "/dev_hdd0/game_patch/work") game_info_path ≡ false
unfolding same
work_apart = refl

two_arrays :
    (titleid app_ver : Bytes)
    → game_info_bytes titleid app_ver ≡ padded 16 titleid ++ padded 8 app_ver
two_arrays titleid app_ver =
    append_assoc (padded 16 titleid) app_ver (replicate (8 - length app_ver) 0)

module _ (io : Stdio) (works : Works io) where
  -- For a started game: what the patch plugin and the bootloader load is the game's title and
  -- version, and the notice is the mark that nothing is to be shown yet.
  pub load_game_info-load_plugin_main :
      (signed_char : Bool) (fs : FileSystem) (titleid app_ver : Bytes)
      → fs game_info_path ≢ some folder
      → fs notify_path ≢ some folder
      → fs (codes "/dev_hdd0/game_patch/work") ≡ some folder
      → length titleid ≤ 16
      → length app_ver ≤ 8
      → let fs' =
          load_plugin_main io signed_char fs (codes "game_plugin") (some (titleid, app_ver)) in
        (load_game_info (content (fs' game_info_path))
          ≡ some (record { titleid = padded 16 titleid; app_ver = padded 8 app_ver }))
        × (fs' notify_path ≡ some (file (check_byte ∷ [])))
  unfolding load_plugin_main
  load_game_info-load_plugin_main signed_char fs titleid app_ver hi hn hw ht ha =
      rw (==_self (vsh_stringid signed_char (codes "game_plugin"))) (
        ap (λ (g : FileSystem). load_game_info (content (g game_info_path))) notice
            ∙ rw distinct (
                ap (λ (g : FileSystem). load_game_info (content (g game_info_path))) info
                ∙ rw (same_self game_info_path) (
                    ap (λ b. load_game_info (some b)) (two_arrays titleid app_ver)
                    ∙ load_game_info-bytes titleid app_ver ht ha)),
        ap (λ (g : FileSystem). g notify_path) notice ∙ rw (same_self notify_path) refl,
      )
    where
      after : FileSystem
      after = write_file io fs game_info_path (game_info_bytes titleid app_ver)

      info : after ≡ put fs game_info_path (file (game_info_bytes titleid app_ver))
      info = write_file_lem io works fs game_info_path (game_info_bytes titleid app_ver) hi (inr hw)

      other :
          put fs game_info_path (file (game_info_bytes titleid app_ver)) notify_path
          ≡ fs notify_path
      other = rw distinct' refl

      spared : after notify_path ≢ some folder
      spared e = hn (sym (ap (λ (g : FileSystem). g notify_path) info ∙ other) ∙ e)

      placed : after (codes "/dev_hdd0/game_patch/work") ≡ some folder
      placed =
          ap (λ (g : FileSystem). g (codes "/dev_hdd0/game_patch/work")) info ∙ rw work_apart hw

      notice :
          write_file io after notify_path (check_byte ∷ [])
          ≡ put after notify_path (file (check_byte ∷ []))
      notice = write_file_lem io works after notify_path (check_byte ∷ []) spared (inr placed)

  -- What `make_folders` has made before it writes the defaults.
  abbrev cleared : FileSystem → FileSystem
  cleared fs =
      io.unlink
        (io.unlink
          (io.mkdir
            (io.mkdir
              (io.mkdir (io.mkdir fs (codes "/dev_hdd0/game_patch"))
                (codes "/dev_hdd0/game_patch/settings"))
              (codes "/dev_hdd0/game_patch/yml"))
            (codes "/dev_hdd0/game_patch/work"))
          notify_path)
        game_info_path

  abbrev cleared_view : FileSystem → FileSystem
  cleared_view fs =
      remove
        (remove
          (made_folder
            (made_folder
              (made_folder (made_folder fs (codes "/dev_hdd0/game_patch"))
                (codes "/dev_hdd0/game_patch/settings"))
              (codes "/dev_hdd0/game_patch/yml"))
            (codes "/dev_hdd0/game_patch/work"))
          notify_path)
        game_info_path

  cleared-view : (fs : FileSystem) → cleared fs ≡ cleared_view fs
  cleared-view fs = simp (works.makes, works.unlinks)

  views :
      (fs : FileSystem)
      → (cleared_view fs plugins_path ≡ fs plugins_path)
        × (cleared_view fs bootloader_path ≡ fs bootloader_path)
        × (cleared_view fs notify_path ≡ none)
        × (cleared_view fs game_info_path ≡ none)
  unfolding same
  views fs = (refl, refl, refl, refl)

  apart :
      (same bootloader_path plugins_path ≡ false)
      × (same plugins_path bootloader_path ≡ false)
      × (same notify_path plugins_path ≡ false)
      × (same notify_path bootloader_path ≡ false)
      × (same game_info_path plugins_path ≡ false)
      × (same game_info_path bootloader_path ≡ false)
  unfolding same
  apart = (refl, refl, refl, refl, refl, refl)

  -- The plugin's start keeps the list of plugins and the bootloader that are there, writes those of
  -- the build where nothing is, and takes away an old notice and old information on a game.
  pub make_folders_lem :
      (yml sprx : Bytes) (fs : FileSystem)
      → fs plugins_path ≢ some folder
      → fs bootloader_path ≢ some folder
      → let fs' = make_folders io yml sprx fs in
        (fs' plugins_path ≡ kept (fs plugins_path) yml)
        × (fs' bootloader_path ≡ kept (fs bootloader_path) sprx)
        × (fs' notify_path ≡ none)
        × (fs' game_info_path ≡ none)
  unfolding make_folders
  make_folders_lem yml sprx fs hp hb = (
    second.1 plugins_path apart.1 ∙ first.0 ∙ ap (λ o. kept o yml) (at plugins_path ∙ (views fs).0),
    second.0
        ∙ ap (λ o. kept o sprx)
            (first.1 bootloader_path apart.0 ∙ at bootloader_path ∙ (views fs).1),
    second.1 notify_path apart.3 ∙ first.1 notify_path apart.2 ∙ at notify_path ∙ (views fs).2,
    second.1 game_info_path apart.5
        ∙ first.1 game_info_path apart.4
        ∙ at game_info_path
        ∙ (views fs).3,
  )
    where
      at : (q : Bytes) → cleared fs q ≡ cleared_view fs q
      at q = ap (λ (g : FileSystem). g q) (cleared-view fs)

      first :
          (write_default_blob io (cleared fs) plugins_path yml plugins_path
            ≡ kept (cleared fs plugins_path) yml)
          × ((q : Bytes)
              → same q plugins_path ≡ false
              → write_default_blob io (cleared fs) plugins_path yml q ≡ cleared fs q)
      first =
          write_default_blob_lem io works (cleared fs) plugins_path yml
            (λ e. hp (sym (at plugins_path ∙ (views fs).0) ∙ e)) (inl refl)

      one : FileSystem
      one = write_default_blob io (cleared fs) plugins_path yml

      second :
          (write_default_blob io one bootloader_path sprx bootloader_path
            ≡ kept (one bootloader_path) sprx)
          × ((q : Bytes)
              → same q bootloader_path ≡ false
              → write_default_blob io one bootloader_path sprx q ≡ one q)
      second =
          write_default_blob_lem io works one bootloader_path sprx
            (λ e.
              hb (sym (first.1 bootloader_path apart.0 ∙ at bootloader_path ∙ (views fs).1) ∙ e))
            (inl refl)
