-- ===== src/Aof/Compaction.antt =====
-- store/aof.go: the replay of what `writeSnapshot` writes, against the state that it wrote.
pub mod Chunks
pub mod Lists
pub mod Hashes
pub mod Strings
pub mod Restores
pub mod Lifetimes
use redis_glass.Prelude.{
  ℕ, suc, ◌+◌, ◌≡◌, refl, ap, ◌∙◌, arith, true, Option, none, some, List, [], ◌∷◌, ◌++◌, length,
  length-append, ℤ, pos, leb_ℤ, Bytes,
}
use redis_glass.Store.{Store, check_memory}
use redis_glass.Aof.{Command, replay_command}
use redis_glass.Aof.Replay.{run_log, upper_command}

-- The first of two, where there is one.
abbrev pub or_else {ℓ} : {A : Type ℓ} → Option A → Option A → Option A
or_else none o = o
or_else (some a) o = some a

pub or_else-none {ℓ} : {A : Type ℓ} (o : Option A) → or_else o none ≡ o
or_else-none none = refl
or_else-none (some a) = refl

-- No limit on the memory, as `SetMaxMemory` has it by default.
abbrev pub IsUnlimited : Store → Type 0
IsUnlimited s = leb_ℤ s.max_memory (pos 0) ≡ true

pub check_memory_unlimited : (n : ℕ) (s : Store) → IsUnlimited s → check_memory n s ≡ true
unfolding check_memory
check_memory_unlimited n s u = rw u

pub run_log-append :
    (k : ℕ) (clock : ℕ → ℤ) (cs ds : List Command) (s : Store)
    → run_log k clock (cs ++ ds) s ≡ run_log k clock ds (run_log (length ds + k) clock cs s)
unfolding run_log
run_log-append k clock [] ds s = refl
run_log-append k clock (c ∷ cs) ds s =
    ap (λ n. run_log k clock (cs ++ ds) (replay_command (clock n) (upper_command c) s).1)
      (omega (arith, length-append cs ds))
    ∙ run_log-append k clock cs ds _
