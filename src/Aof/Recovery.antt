-- ===== src/Aof/Recovery.antt =====
-- store/aof.go: the lists and hashes that a replay makes of a log, and those of the server that wrote it.
pub mod Strings
pub mod Collections
pub mod Hashes
pub mod Commands
pub mod Steps
pub mod Reached
pub mod Sizes
use redis_glass.Prelude.{◌≡◌, refl, sym, ap, ◌∙◌, Option, List, Bytes, lookup, pos, leb_ℤ, true}
use mathlib.Core.Path.{subst}
use redis_glass.Store.{Store}
use redis_glass.Store.Lists.{list_at}
use redis_glass.Store.Hashes.{hash_at, hget}
use redis_glass.Aof.Compaction.{IsUnlimited}

-- Two states without a memory limit that hold the same lists and the same fields in each hash.
pub record SameCollections (s t : Store) : Type 0 where
  pub list : (k : Bytes) → list_at k t ≡ list_at k s
  pub field : (k f : Bytes) → hget k f t ≡ hget k f s
  pub free_from : IsUnlimited s
  pub free_to : IsUnlimited t

-- A state with the lists, the hashes and the limit of another.
pub record SameFrame (s s' : Store) : Type 0 where
  pub lists : s'.lists ≡ s.lists
  pub hashes : s'.hashes ≡ s.hashes
  pub limit : s'.max_memory ≡ s.max_memory

pub SameFrame-refl : (s : Store) → SameFrame s s
SameFrame-refl s = record { lists = refl; hashes = refl; limit = refl }

-- Steps that leave the collections alone, on both sides.
pub framed :
    (s t s' t' : Store)
    → SameFrame s s'
    → SameFrame t t'
    → SameCollections s t
    → SameCollections s' t'
unfolding hget
framed s t s' t' f g h = record {
  list = λ k. rw (f.lists, g.lists) (h.list k);
  field = λ k x. rw (f.hashes, g.hashes) (h.field k x);
  free_from = rw f.limit h.free_from;
  free_to = rw g.limit h.free_to;
}
