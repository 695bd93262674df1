-- ===== src/FileIo/System/Sizes.antt =====
-- The size of an open file.
use ps3_plugins.Base.{ℕ, ◌≡◌, refl, sym, ap, ◌∙◌, some, ==_self}
use ps3_plugins.FileIo.System.{
  FileStatus, ok, FileSeekMode, seek_current, seek_start, seek_end, as_int, Constants, Kernel,
  cell_fs_error_to_file_status, file_tell, file_seek, file_size, file_seek_mode_to_cell_seek_mode,
}

module _ (c : Constants) {S : Type 0} (k : Kernel S) (position length_of : S → ℕ → ℕ) where
  -- What `lseek` does on an open handle: it succeeds, and gives the place it has moved to.
  pub record Seeks (handle : ℕ) : Type 0 where
    pub zero_ok : c.fs_ok ≡ 0
    pub current : (s : S) → k.sys_lseek s handle 0 c.cur ≡ (c.fs_ok, position s handle, s)
    pub to_end :
        (s : S)
        → (s' : S) × (k.sys_lseek s handle 0 c.end_ ≡ (c.fs_ok, length_of s handle, s'))
          × (position s' handle ≡ length_of s handle)
          × (length_of s' handle ≡ length_of s handle)
    pub to_start :
        (s : S) (offset : ℕ)
        → (s' : S) × (k.sys_lseek s handle offset c.set_ ≡ (c.fs_ok, offset, s'))
          × (position s' handle ≡ offset)
          × (length_of s' handle ≡ length_of s handle)

  status_ok : cell_fs_error_to_file_status c c.fs_ok ≡ ok
  unfolding cell_fs_error_to_file_status
  status_ok = rw (==_self c.fs_ok) refl

  -- A seek whose call succeeds.
  seek_ok :
      (s s' : S) (handle offset place : ℕ) (mode : FileSeekMode)
      → k.sys_lseek s handle offset (file_seek_mode_to_cell_seek_mode c mode) ≡ (c.fs_ok, place, s')
      → file_seek c k s handle mode offset ≡ (ok, place, s')
  unfolding file_seek
  seek_ok s s' handle offset place mode e =
      ap
        (λ (d : ℕ × ℕ × S).
          let r : FileStatus × ℕ × S = (cell_fs_error_to_file_status c d.0, d.1, d.2) in r)
        e
      ∙ ap (λ t. let r : FileStatus × ℕ × S = (t, place, s') in r) status_ok

  tell_ok :
      (s : S) (handle : ℕ) → Seeks handle → file_tell c k s handle ≡ (ok, position s handle, s)
  unfolding file_tell file_seek_mode_to_cell_seek_mode
  tell_ok s handle seeks =
      ap
        (λ (d : FileStatus × ℕ × S).
          let r : FileStatus × ℕ × S = (cell_fs_error_to_file_status c (as_int d.0), d.1, d.2) in r)
        (seek_ok s s handle 0 (position s handle) seek_current (seeks.current s))
      ∙ ap (λ t. let r : FileStatus × ℕ × S = (t, position s handle, s) in r)
          (ap (cell_fs_error_to_file_status c) (sym seeks.zero_ok) ∙ status_ok)

  -- The size is that of the file, and the place in it is where it was.
  pub file_size_lem :
      (s : S) (handle : ℕ)
      → Seeks handle
      → (s' : S) × (file_size c k s handle ≡ (ok, some (length_of s handle), s'))
        × (position s' handle ≡ position s handle)
        × (length_of s' handle ≡ length_of s handle)
  unfolding file_size file_seek_mode_to_cell_seek_mode
  file_size_lem s handle seeks =
      let (s₁, e₁, p₁, l₁) = seeks.to_end s in
      let (s₂, e₂, p₂, l₂) = seeks.to_start s₁ (position s handle) in
      (
        s₂,
        rw
            (
              tell_ok s handle seeks,
              seek_ok s s₁ handle 0 (length_of s handle) seek_end e₁,
              seek_ok s₁ s₂ handle (position s handle) (position s handle) seek_start e₂,
            )
            refl,
        p₂,
        l₂ ∙ l₁,
      )
