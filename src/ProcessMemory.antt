-- ===== src/ProcessMemory.antt =====
-- game_patch_vsh_data/Memory/Memory.cpp: `WriteProcessMemory` and `ReadProcessMemory` on the memory
-- of the process itself, and `GetCurrentToc`. Memory is the word at each address, and every access
-- is of whole words. The system calls are parameters: each gives its status and what it leaves.
pub mod Fallback
use ps3_plugins.Base.{ℕ, zero, suc, ◌+◌, Bool, true, List, [], ◌∷◌, ◌==◌, if◌then◌else◌}

abbrev pub Memory : Type 0
Memory = ℕ → ℕ

-- `sys_dbg_write_process_memory`, `PS3MAPISetMemory`, `sys_dbg_read_process_memory` and
-- `PS3MAPIGetMemory`; `status 0` is SUCCEEDED.
pub record Syscalls : Type 0 where
  pub dbg_write : Memory → ℕ → List ℕ → ℕ × Memory
  pub hen_write : Memory → ℕ → List ℕ → ℕ × Memory
  pub dbg_read : Memory → ℕ → ℕ → ℕ × List ℕ
  pub hen_read : Memory → ℕ → ℕ → ℕ × List ℕ

-- The memory and the `useHenSyscalls` of each function.
pub record Process : Type 0 where
  pub memory : Memory
  pub write_by_hen : Bool
  pub read_by_hen : Bool

abbrev pub succeeded : ℕ
succeeded = 0

abbrev pub hen_write_step : Syscalls → Process → ℕ → List ℕ → ℕ × Process
hen_write_step k p address ws =
    let done = k.hen_write p.memory address ws in
    (done.0, record p { memory = done.1; write_by_hen = true })

unfoldable pub write_process_memory : Syscalls → Process → ℕ → List ℕ → ℕ × Process
write_process_memory k p address ws =
    if p.write_by_hen
    then hen_write_step k p address ws
    else (let tried = k.dbg_write p.memory address ws in
        if tried.0 == succeeded
        then (tried.0, record p { memory = tried.1 })
        else hen_write_step k (record p { memory = tried.1 }) address ws)

abbrev pub hen_read_step : Syscalls → Process → ℕ → ℕ → ℕ × List ℕ × Process
hen_read_step k p address count =
    let done = k.hen_read p.memory address count in
    (done.0, done.1, record p { read_by_hen = true })

unfoldable pub read_process_memory : Syscalls → Process → ℕ → ℕ → ℕ × List ℕ × Process
read_process_memory k p address count =
    if p.read_by_hen
    then hen_read_step k p address count
    else (let tried = k.dbg_read p.memory address count in
        if tried.0 == succeeded then (tried.0, tried.1, p) else hen_read_step k p address count)

-- `e_entry` of the ELF header, and the second word of the descriptor there.
unfoldable pub get_current_toc : Memory → ℕ
get_current_toc memory = memory (memory 0x1001c + 4)

-- A memory with one more word, and with a run of words.
abbrev pub update : Memory → ℕ → ℕ → Memory
update m a w q = if q == a then w else m q

unfoldable pub write_words : Memory → ℕ → List ℕ → Memory
write_words m a [] = m
write_words m a (w ∷ ws) = write_words (update m a w) (a + 4) ws

unfoldable pub read_words : Memory → ℕ → ℕ → List ℕ
read_words m a zero = []
read_words m a (suc n) = m a ∷ read_words m (a + 4) n
