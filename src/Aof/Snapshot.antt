-- ===== src/Aof/Snapshot.antt =====
-- store/aof.go: `writeSnapshot`, the commands that rebuild a state. `Snapshot` of store/store.go
-- copies the maps under the lock: as values, the copies are the state itself.
use redis_glass.Prelude.{
  ℕ, zero, suc, ◌*◌, ◌/◌, Option, none, some, List, [], ◌∷◌, ◌++◌, length, take, drop, Bytes, codes,
  Dict, ℤ, pos, pos_part, leb_ℤ, itoa, if◌then◌else◌,
}
use redis_glass.Store.{Entry, Store, millisecond, time_sub}
use redis_glass.Aof.{Command, encode_log}

abbrev pub chunk_size : ℕ
chunk_size = 500

-- `for i := 0; i < len(elems); i += n { … elems[i:end] … }`, on fuel.
unfoldable pub chunks : ℕ → ℕ → List Bytes → List (List Bytes)
chunks zero n xs = []
chunks (suc f) n [] = []
chunks (suc f) n (x ∷ xs) = take n (x ∷ xs) ∷ chunks f n (drop n (x ∷ xs))

-- A chunk takes an element at least, so the length of the list is fuel enough.
unfoldable pub chunked : ℕ → List Bytes → List (List Bytes)
unfolding chunks
chunked n xs = chunks (length xs) n xs

-- The arguments of SET; nothing for an entry that has expired.
unfoldable pub set_args : ℤ → Bytes → Bytes → Option ℤ → Option (List Bytes)
set_args now key value none = some (key ∷ value ∷ [])
set_args now key value (some t) =
    let remaining = time_sub t now in
    if leb_ℤ remaining (pos 0)
    then none
    else some (key ∷ value ∷ codes "PX" ∷ itoa (pos (pos_part remaining / millisecond)) ∷ [])

unfoldable pub add_set : Option (List Bytes) → List Command → List Command
add_set none cs = cs
add_set (some args) cs = (codes "SET", args) ∷ cs

unfoldable pub string_commands : ℤ → Dict Entry → List Command
unfolding set_args add_set
string_commands now [] = []
string_commands now ((k, e) ∷ m) =
    add_set (set_args now k e.value e.expires_at) (string_commands now m)

unfoldable pub keyed : Bytes → Bytes → List (List Bytes) → List Command
keyed name key [] = []
keyed name key (vals ∷ rest) = (name, key ∷ vals) ∷ keyed name key rest

unfoldable pub list_commands : Dict (List Bytes) → List Command
unfolding keyed chunked
list_commands [] = []
list_commands ((k, elems) ∷ m) =
    keyed (codes "RPUSH") k (chunked chunk_size elems) ++ list_commands m

unfoldable pub pairs_of : Dict Bytes → List Bytes
pairs_of [] = []
pairs_of ((f, v) ∷ h) = f ∷ v ∷ pairs_of h

unfoldable pub hash_commands : Dict (Dict Bytes) → List Command
unfolding keyed chunked pairs_of
hash_commands [] = []
hash_commands ((k, fields) ∷ m) =
    keyed (codes "HSET") k (chunked (chunk_size * 2) (pairs_of fields)) ++ hash_commands m

unfoldable pub snapshot_commands : ℤ → Store → List Command
unfolding string_commands list_commands hash_commands
snapshot_commands now snap =
    string_commands now snap.strings ++ (list_commands snap.lists ++ hash_commands snap.hashes)

unfoldable pub write_snapshot : ℤ → Store → Bytes
unfolding snapshot_commands
write_snapshot now snap = encode_log (snapshot_commands now snap)
