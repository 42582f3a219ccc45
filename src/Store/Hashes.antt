-- ===== src/Store/Hashes.antt =====
-- store/store.go: the operations on hashes.
use redis_glass.Prelude.{
  ℕ, ◌+◌, true, false, Option, none, some, List, [], ◌∷◌, length, Bytes, Dict, lookup, insert,
  delete, if◌then◌else◌,
}
use redis_glass.Store.{Store, Result, ok, err, oom, sum_len, check_memory, is_some, tally}

-- `s.hashes[key]`, or the map that `HSet` makes for a missing key.
abbrev pub or_empty {ℓ} : {V : Type ℓ} → Option (Dict V) → Dict V
or_empty none = []
or_empty (some h) = h

abbrev pub hash_at : Bytes → Store → Dict Bytes
hash_at key s = or_empty (lookup key s.hashes)

-- The loop over the pairs; a last field without a value is left out.
unfoldable pub set_fields : List Bytes → Dict Bytes → ℕ × Dict Bytes
set_fields (field ∷ val ∷ pairs) h =
    let (n, h') = set_fields pairs (insert field val h) in
    (tally (if is_some (lookup field h) then false else true) n, h')
set_fields _ h = (0, h)

unfoldable pub put_hash : Bytes → ℕ × Dict Bytes → Store → Result ℕ × Store
put_hash key (n, h) s = (ok n, record s { hashes = insert key h s.hashes })

unfoldable pub hset : Bytes → List Bytes → Store → Result ℕ × Store
unfolding set_fields put_hash
hset key pairs s =
    if check_memory (length key + sum_len pairs) s
    then put_hash key (set_fields pairs (hash_at key s)) s
    else (err oom, s)

unfoldable pub hget : Bytes → Bytes → Store → Option Bytes
hget key field s = lookup field (hash_at key s)

unfoldable pub delete_fields : List Bytes → Dict Bytes → ℕ × Dict Bytes
delete_fields [] h = (0, h)
delete_fields (f ∷ fs) h =
    let (n, h') = delete_fields fs (delete f h) in (tally (is_some (lookup f h)) n, h')

-- An empty hash is removed; for a map that is there, its pointer needs no write back.
unfoldable pub close_hash : Bytes → ℕ × Dict Bytes → Store → ℕ × Store
close_hash key (n, []) s = (n, record s { hashes = delete key s.hashes })
close_hash key (n, p ∷ h) s = (n, record s { hashes = insert key (p ∷ h) s.hashes })

unfoldable pub hdel_found : Bytes → List Bytes → Option (Dict Bytes) → Store → ℕ × Store
unfolding delete_fields close_hash
hdel_found key fs none s = (0, s)
hdel_found key fs (some h) s = close_hash key (delete_fields fs h) s

unfoldable pub hdel : Bytes → List Bytes → Store → ℕ × Store
unfolding hdel_found
hdel key fs s = hdel_found key fs (lookup key s.hashes) s
