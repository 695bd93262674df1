-- ===== src/ProcessMemory/Fallback.antt =====
-- The fall back from the debugger's system calls to those of HEN, under what the calls promise.
use ps3_plugins.Base.{ℕ, ◌≡◌, ◌≢◌, List, arith}
use ps3_plugins.ProcessMemory.{
  read_process_memory, read_words, Process, write_words, write_process_memory, succeeded, Syscalls,
  Memory,
}

-- A call that succeeds moves the words, one that fails moves none; HEN's calls succeed.
pub record Works (k : Syscalls) : Type 0 where
  pub dbg_writes :
      (m : Memory) (a : ℕ) (ws : List ℕ)
      → (k.dbg_write m a ws).0 ≡ succeeded
      → (k.dbg_write m a ws).1 ≡ write_words m a ws
  pub dbg_spares :
      (m : Memory) (a : ℕ) (ws : List ℕ)
      → (k.dbg_write m a ws).0 ≢ succeeded
      → (k.dbg_write m a ws).1 ≡ m
  pub hen_writes :
      (m : Memory) (a : ℕ) (ws : List ℕ) → k.hen_write m a ws ≡ (succeeded, write_words m a ws)
  pub dbg_reads :
      (m : Memory) (a n : ℕ)
      → (k.dbg_read m a n).0 ≡ succeeded
      → (k.dbg_read m a n).1 ≡ read_words m a n
  pub hen_reads : (m : Memory) (a n : ℕ) → k.hen_read m a n ≡ (succeeded, read_words m a n)

module _ (k : Syscalls) (works : Works k) where
  -- Whichever call does it, the words are written, and the status is that of success.
  pub write_process_memory_lem :
      (p : Process) (a : ℕ) (ws : List ℕ)
      → ((write_process_memory k p a ws).0 ≡ succeeded)
        × ((write_process_memory k p a ws).1.memory ≡ write_words p.memory a ws)
  unfolding write_process_memory
  write_process_memory_lem p a ws = ground (
    arith,
    works.dbg_writes p.memory a ws,
    works.dbg_spares p.memory a ws,
    works.hen_writes p.memory a ws,
    works.hen_writes (k.dbg_write p.memory a ws).1 a ws,
  )

  pub read_process_memory_lem :
      (p : Process) (a n : ℕ)
      → ((read_process_memory k p a n).0 ≡ succeeded)
        × ((read_process_memory k p a n).1 ≡ read_words p.memory a n)
        × ((read_process_memory k p a n).2.memory ≡ p.memory)
  unfolding read_process_memory
  read_process_memory_lem p a n =
      ground (arith, works.dbg_reads p.memory a n, works.hen_reads p.memory a n)
