-- ===== src/FileIo/System.antt =====
-- game_patch/lib/file.c and game_patch/lib/file.h: the operations on a handle, over the system calls
-- 801 to 804, 814 and 818 and the constants of the system's headers, which are parameters.
pub mod Sizes
pub mod Writing
use Prim.Native.Nat.{bit_and}
use ps3_plugins.Base.{ℕ, Bool, true, false, Option, none, some, ◌==◌, if◌then◌else◌, Bytes}

pub data FileStatus : Type 0 where
  ok not_exists open_failed : FileStatus

pub data FileMode : Type 0 where
  mode_read mode_write mode_read_write mode_create : FileMode

pub data FileSeekMode : Type 0 where
  seek_current seek_start seek_end : FileSeekMode

-- CELL_FS_O_RDONLY, _WRONLY, _RDWR and _CREAT; CELL_FS_SEEK_CUR, _SET and _END; CELL_FS_OK and
-- CELL_FS_ERROR_EEXIST.
pub record Constants : Type 0 where
  pub rdonly : ℕ
  pub wronly : ℕ
  pub rdwr : ℕ
  pub creat : ℕ
  pub cur : ℕ
  pub set_ : ℕ
  pub end_ : ℕ
  pub fs_ok : ℕ
  pub eexist : ℕ

-- The system calls on a state: each gives its error code, what it leaves in its result, and the
-- state.
pub record Kernel (S : Type 0) : Type 0 where
  pub sys_open : S → Bytes → ℕ → ℕ → ℕ × ℕ × S
  pub sys_read : S → ℕ → ℕ → ℕ × Bytes × S
  pub sys_write : S → ℕ → Bytes → ℕ × ℕ × S
  pub sys_lseek : S → ℕ → ℕ → ℕ → ℕ × ℕ × S
  pub sys_close : S → ℕ → ℕ × S
  pub sys_unlink : S → Bytes → ℕ × S

-- A status that is taken for an error code.
abbrev pub as_int : FileStatus → ℕ
as_int ok = 0
as_int not_exists = 1
as_int open_failed = 2

abbrev pub is_ok : FileStatus → Bool
is_ok ok = true
is_ok not_exists = false
is_ok open_failed = false

module _ (c : Constants) where
  unfoldable pub file_mode_to_cell_fs : FileMode → ℕ
  file_mode_to_cell_fs mode_read = c.rdonly
  file_mode_to_cell_fs mode_write = c.wronly
  file_mode_to_cell_fs mode_read_write = c.rdwr
  file_mode_to_cell_fs mode_create = c.creat

  unfoldable pub file_seek_mode_to_cell_seek_mode : FileSeekMode → ℕ
  file_seek_mode_to_cell_seek_mode seek_current = c.cur
  file_seek_mode_to_cell_seek_mode seek_start = c.set_
  file_seek_mode_to_cell_seek_mode seek_end = c.end_

  unfoldable pub cell_fs_error_to_file_status : ℕ → FileStatus
  cell_fs_error_to_file_status err =
      if err == c.fs_ok then ok else if err == c.eexist then not_exists else open_failed

  module _ {S : Type 0} (k : Kernel S) where
    -- The mode of a new file is the decimal 777.
    unfoldable pub file_open : S → Bytes → FileMode → FileStatus × ℕ × S
    unfolding file_mode_to_cell_fs cell_fs_error_to_file_status
    file_open s path mode =
        let cellmode = file_mode_to_cell_fs mode in
        let omode = if bit_and cellmode c.creat == 0 then 0 else 777 in
        let done = k.sys_open s path cellmode omode in
        (cell_fs_error_to_file_status done.0, done.1, done.2)

    unfoldable pub file_read : S → ℕ → ℕ → FileStatus × Bytes × S
    unfolding cell_fs_error_to_file_status
    file_read s handle count =
        let done = k.sys_read s handle count in
        (cell_fs_error_to_file_status done.0, done.1, done.2)

    unfoldable pub file_write : S → ℕ → Bytes → FileStatus × ℕ × S
    unfolding cell_fs_error_to_file_status
    file_write s handle buffer =
        let done = k.sys_write s handle buffer in
        (cell_fs_error_to_file_status done.0, done.1, done.2)

    unfoldable pub file_close : S → ℕ → FileStatus × S
    unfolding cell_fs_error_to_file_status
    file_close s handle =
        let done = k.sys_close s handle in (cell_fs_error_to_file_status done.0, done.1)

    unfoldable pub file_delete : S → Bytes → S
    file_delete s path = (k.sys_unlink s path).1

    -- The write and the close of `fileWrite2`.
    unfoldable pub write_and_close : S → ℕ → Bytes → FileStatus × S
    write_and_close s handle buffer =
        let wrote = file_write s handle buffer in
        let closed = file_close wrote.2 handle in
        (if is_ok wrote.0 then closed.0 else wrote.0, closed.1)

    unfoldable pub file_write2 : S → Bytes → Bytes → FileStatus × S
    file_write2 s path buffer =
        let opened = file_open s path mode_read_write in
        let created = file_open opened.2 path mode_create in
        if is_ok opened.0
        then write_and_close opened.2 opened.1 buffer
        else if is_ok created.0
        then write_and_close created.2 created.1 buffer
        else (created.0, created.2)

    unfoldable pub file_seek : S → ℕ → FileSeekMode → ℕ → FileStatus × ℕ × S
    unfolding cell_fs_error_to_file_status file_seek_mode_to_cell_seek_mode
    file_seek s handle mode offset =
        let done = k.sys_lseek s handle offset (file_seek_mode_to_cell_seek_mode mode) in
        (cell_fs_error_to_file_status done.0, done.1, done.2)

    -- The status of `fileSeek` is taken for an error code once more.
    unfoldable pub file_tell : S → ℕ → FileStatus × ℕ × S
    unfolding cell_fs_error_to_file_status
    file_tell s handle =
        let done = file_seek s handle seek_current 0 in
        (cell_fs_error_to_file_status (as_int done.0), done.1, done.2)

    -- `*size` is set only where all three calls succeed.
    unfoldable pub file_size : S → ℕ → FileStatus × Option ℕ × S
    file_size s handle =
        let told = file_tell s handle in
        let ended = file_seek told.2 handle seek_end 0 in
        let back = file_seek ended.2 handle seek_start told.1 in
        if is_ok told.0
        then (if is_ok ended.0
            then (if is_ok back.0 then (back.0, some ended.1, back.2) else (back.0, none, back.2))
            else (ended.0, none, ended.2))
        else (told.0, none, told.2)
