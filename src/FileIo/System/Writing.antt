-- ===== src/FileIo/System/Writing.antt =====
-- Writing a whole file.
use Prim.Native.Nat.{bit_and}
use ps3_plugins.Base.{
  ℕ, ◌≡◌, refl, ap, ◌∙◌, Option, some, List, ◌∷◌, ◌++◌, ==_self, Bytes, length, drop,
}
use ps3_plugins.FileIo.System.{
  FileStatus, ok, mode_read_write, Constants, Kernel, cell_fs_error_to_file_status,
  file_mode_to_cell_fs, file_open, file_write, file_close, write_and_close, file_write2,
}

module _ (c : Constants) {S : Type 0} (k : Kernel S) (content : S → Bytes → Option Bytes)
    (handles : S → List ℕ) (AtStart : S → ℕ → Bytes → Type 0) where
  -- What the system promises of a file that is there: it opens at its start, with a handle that is
  -- put before the open ones; a write lays the bytes over those that are there; the handle that was
  -- opened last can be closed, and is then open no more. Of any other handle nothing is promised.
  pub record Files (path : Bytes) : Type 0 where
    pub no_creation : bit_and c.rdwr c.creat ≡ 0
    pub opens :
        (s : S) (old : Bytes)
        → content s path ≡ some old
        → (handle : ℕ) × (s' : S) × (k.sys_open s path c.rdwr 0 ≡ (c.fs_ok, handle, s'))
          × AtStart s' handle path
          × (content s' path ≡ some old)
          × (handles s' ≡ handle ∷ handles s)
    pub writes :
        (s : S) (handle : ℕ) (old bytes : Bytes)
        → AtStart s handle path
        → content s path ≡ some old
        → (s' : S) × (k.sys_write s handle bytes ≡ (c.fs_ok, length bytes, s'))
          × (content s' path ≡ some (bytes ++ drop (length bytes) old))
          × (handles s' ≡ handles s)
    pub closes :
        (s : S) (handle : ℕ) (others : List ℕ)
        → handles s ≡ handle ∷ others
        → (s' : S) × (k.sys_close s handle ≡ (c.fs_ok, s'))
          × (content s' path ≡ content s path)
          × (handles s' ≡ others)

  status_ok : cell_fs_error_to_file_status c c.fs_ok ≡ ok
  unfolding cell_fs_error_to_file_status
  status_ok = rw (==_self c.fs_ok) refl

  close_ok :
      (s s' : S) (handle : ℕ)
      → k.sys_close s handle ≡ (c.fs_ok, s')
      → file_close c k s handle ≡ (ok, s')
  unfolding file_close
  close_ok s s' handle e =
      ap (λ (d : ℕ × S). let r : FileStatus × S = (cell_fs_error_to_file_status c d.0, d.1) in r) e
      ∙ ap (λ t. let r : FileStatus × S = (t, s') in r) status_ok

  triple_ok :
      {A : Type 0} (d : ℕ × A × S) (a : A) (s' : S)
      → d ≡ (c.fs_ok, a, s')
      → (let r : FileStatus × A × S = (cell_fs_error_to_file_status c d.0, d.1, d.2) in r)
        ≡ (ok, a, s')
  triple_ok {A} d a s' e =
      ap
        (λ (d : ℕ × A × S).
          let r : FileStatus × A × S = (cell_fs_error_to_file_status c d.0, d.1, d.2) in r)
        e
      ∙ ap (λ t. let r : FileStatus × A × S = (t, a, s') in r) status_ok

  write_ok :
      (s s' : S) (handle n : ℕ) (bytes : Bytes)
      → k.sys_write s handle bytes ≡ (c.fs_ok, n, s')
      → file_write c k s handle bytes ≡ (ok, n, s')
  unfolding file_write
  write_ok s s' handle n bytes e = triple_ok _ n s' e

  open_ok :
      (s s' : S) (handle : ℕ) (path : Bytes)
      → bit_and c.rdwr c.creat ≡ 0
      → k.sys_open s path c.rdwr 0 ≡ (c.fs_ok, handle, s')
      → file_open c k s path mode_read_write ≡ (ok, handle, s')
  unfolding file_open file_mode_to_cell_fs
  open_ok s s' handle path z e = rw z (triple_ok _ handle s' e)

  -- `fileWrite2` on a file that is there: the bytes lie over its start, what was behind them stays,
  -- and the handle that was opened is closed, so that the open handles are those from before.
  pub file_write2_lem :
      (path : Bytes)
      → Files path
      → (s : S) (old bytes : Bytes) → content s path ≡ some old
      → (s' : S) × (file_write2 c k s path bytes ≡ (ok, s'))
        × (content s' path ≡ some (bytes ++ drop (length bytes) old))
        × (handles s' ≡ handles s)
  unfolding file_write2 write_and_close
  file_write2_lem path files s old bytes there =
      let (handle, s₁, e₁, at, c₁, h₁) = files.opens s old there in
      let (s₂, e₂, c₂, h₂) = files.writes s₁ handle old bytes at c₁ in
      let (s₃, e₃, c₃, h₃) = files.closes s₂ handle (handles s) (h₂ ∙ h₁) in
      (
        s₃,
        rw
            (
              open_ok s s₁ handle path files.no_creation e₁,
              write_ok s₁ s₂ handle (length bytes) bytes e₂,
              close_ok s₂ s₃ handle e₃,
            )
            refl,
        c₃ ∙ c₂,
        h₃,
      )
