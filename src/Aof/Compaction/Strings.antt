-- ===== src/Aof/Compaction/Strings.antt =====
-- store/aof.go: the string keys of a snapshot, replayed.
use redis_glass.Prelude.{
  ℕ, zero, suc, ◌+◌, ◌+ℤ◌, ◌*◌, ◌/◌, ◌<◌, ◌≡◌, refl, sym, ap, ◌∙◌, arith, Option, none, some, List,
  [], ◌∷◌, length, Bytes, codes, bytes_eq, bytes_eq_iff, to_upper, Dict, lookup, lookup-insert,
  IsDistinct, ℤ, pos, pos_part, leb_ℤ, IsInt64, scale, wrap, wrap_id, itoa, atoi-itoa, two_63,
  if◌then◌else◌, Bool-cases, inl, inr,
}
use redis_glass.Store.{Entry, Store, millisecond, time_sub, expiry_of, put_entry, set, duration, ok}
use redis_glass.Aof.{Command, ttl_in, set_option, parse_set_ttl, replay_set, replay_command}
use redis_glass.Aof.Snapshot.{add_set, set_args, string_commands}
use redis_glass.Aof.Replay.{run_log}
use redis_glass.Aof.Compaction.{or_else, IsUnlimited, check_memory_unlimited}

-- The whole milliseconds that an expiry is from now, as nanoseconds.
unfoldable pub rest_of : ℤ → ℤ → ℕ
rest_of t now = pos_part (time_sub t now) / millisecond * millisecond

time_sub-IsInt64 : (t u : ℤ) → IsInt64 (time_sub t u)
unfolding time_sub
time_sub-IsInt64 t u = ground arith

duration_id : (n u : ℕ) → n * u < two_63 → duration (pos n) u ≡ pos (n * u)
unfolding duration scale
duration_id n u h = ap wrap (ground arith) ∙ wrap_id (pos (n * u)) (omega arith, omega arith)

-- The lifetime that is written is read back.
parse_set_ttl-px :
    (t now : ℤ)
    → parse_set_ttl (pos 0) (codes "PX" ∷ itoa (pos (pos_part (time_sub t now) / millisecond)) ∷ [])
      ≡ ok (pos (rest_of t now))
unfolding parse_set_ttl set_option bytes_eq to_upper ttl_in rest_of
parse_set_ttl-px t now =
    let (b, _) = time_sub-IsInt64 t now in
    let ms = pos_part (time_sub t now) / millisecond in
    rw (atoi-itoa (pos ms) (omega arith, omega arith))
      (ap ok (duration_id ms millisecond (omega arith)))

-- When an entry expires that is restored with so many nanoseconds left: so long after the replay, and
-- never where nothing is left of its lifetime (`PX 0` is a SET without an expiry).
abbrev pub restart : ℤ → ℕ → Option ℤ
restart later zero = none
restart later (suc n) = some (later +ℤ pos (suc n))

-- The entry that a SET of the snapshot makes when it is replayed: the rest of its lifetime, in whole
-- milliseconds, starts anew. An entry that has expired is not written.
unfoldable pub restored_entry : ℤ → ℤ → Bytes → Option ℤ → Option Entry
unfolding rest_of
restored_entry now later v none = some (record { value = v; expires_at = none })
restored_entry now later v (some t) =
    if leb_ℤ (time_sub t now) (pos 0)
    then none
    else some (record { value = v; expires_at = restart later (rest_of t now) })

unfoldable pub restored : ℤ → ℤ → Option Entry → Option Entry
unfolding restored_entry
restored now later none = none
restored now later (some e) = restored_entry now later e.value e.expires_at

put_option : Bytes → Option Entry → Store → Store
put_option k none s = s
put_option k (some e) s = put_entry k e s

-- What the SETs do.
unfoldable pub put_strings : ℕ → (ℕ → ℤ) → ℤ → Dict Entry → Store → Store
unfolding put_option
put_strings n clock now [] s = s
put_strings n clock now ((k, e) ∷ m) s =
    put_strings n clock now m
      (put_option k (restored now (clock (length (string_commands now m) + n)) (some e)) s)

expiry_of-restart : (later : ℤ) (n : ℕ) → expiry_of later (pos n) ≡ restart later n
unfolding expiry_of
expiry_of-restart later zero = refl
expiry_of-restart later (suc n) = ground arith

replay_set_plain :
    (later : ℤ) (k v : Bytes) (s : Store)
    → IsUnlimited s
    → (replay_command later (codes "SET", k ∷ v ∷ []) s).1
      ≡ put_entry k (record { value = v; expires_at = none }) s
unfolding replay_command replay_set bytes_eq parse_set_ttl set expiry_of
replay_set_plain later k v s u = rw (check_memory_unlimited (length k + length v) s u)

replay_set_px :
    (later now : ℤ) (k v : Bytes) (t : ℤ) (s : Store)
    → IsUnlimited s
    → (replay_command later
        (
          codes "SET",
          k ∷ v ∷ codes "PX" ∷ itoa (pos (pos_part (time_sub t now) / millisecond)) ∷ [],
        )
        s).1
      ≡ put_entry k (record { value = v; expires_at = restart later (rest_of t now) }) s
unfolding replay_command replay_set bytes_eq set
replay_set_px later now k v t s u = rw (
  parse_set_ttl-px t now,
  check_memory_unlimited (length k + length v) s u,
  expiry_of-restart later (rest_of t now),
)

run_log-set :
    (n : ℕ) (clock : ℕ → ℤ) (now : ℤ) (k v : Bytes) (o : Option ℤ) (cs : List Command) (s : Store)
    → IsUnlimited s
    → run_log n clock (add_set (set_args now k v o) cs) s
      ≡ run_log n clock cs (put_option k (restored_entry now (clock (length cs + n)) v o) s)
unfolding run_log add_set set_args put_option restored_entry to_upper
run_log-set n clock now k v none cs s u =
    ap (run_log n clock cs) (replay_set_plain (clock (length cs + n)) k v s u)
run_log-set n clock now k v (some t) cs s u = elim (Bool-cases (leb_ℤ (time_sub t now) (pos 0))) [
  | inl e ↦ rw e
  | inr e ↦ rw e (ap (run_log n clock cs) (replay_set_px (clock (length cs + n)) now k v t s u))
]

put_option-IsUnlimited :
    (k : Bytes) (o : Option Entry) (s : Store) → IsUnlimited s → IsUnlimited (put_option k o s)
unfolding put_option put_entry
put_option-IsUnlimited k none s u = u
put_option-IsUnlimited k (some e) s u = u

pub run_log-string_commands :
    (n : ℕ) (clock : ℕ → ℤ) (now : ℤ) (m : Dict Entry) (s : Store)
    → IsUnlimited s
    → run_log n clock (string_commands now m) s ≡ put_strings n clock now m s
unfolding run_log string_commands put_strings restored
run_log-string_commands n clock now [] s u = refl
run_log-string_commands n clock now ((k, e) ∷ m) s u =
    run_log-set n clock now k e.value e.expires_at (string_commands now m) s u
    ∙ run_log-string_commands n clock now m _ (put_option-IsUnlimited k _ s u)

put_option-same :
    (k : Bytes) (o : Option Entry) (s : Store)
    → ((put_option k o s).lists ≡ s.lists)
      × ((put_option k o s).hashes ≡ s.hashes)
      × ((put_option k o s).max_memory ≡ s.max_memory)
unfolding put_option put_entry
put_option-same k none s = (refl, refl, refl)
put_option-same k (some e) s = (refl, refl, refl)

pub put_strings-same :
    (n : ℕ) (clock : ℕ → ℤ) (now : ℤ) (m : Dict Entry) (s : Store)
    → ((put_strings n clock now m s).lists ≡ s.lists)
      × ((put_strings n clock now m s).hashes ≡ s.hashes)
      × ((put_strings n clock now m s).max_memory ≡ s.max_memory)
unfolding put_strings
put_strings-same n clock now [] s = (refl, refl, refl)
put_strings-same n clock now ((k, e) ∷ m) s =
    let (l, h, x) = put_strings-same n clock now m _ in
    let (l', h', x') =
      put_option-same k (restored now (clock (length (string_commands now m) + n)) (some e)) s in
    (l ∙ l', h ∙ h', x ∙ x')

lookup-put_option :
    (k j : Bytes) (o : Option Entry) (s : Store)
    → lookup j (put_option k o s).strings
      ≡ (if bytes_eq k j then or_else o (lookup j s.strings) else lookup j s.strings)
unfolding put_option put_entry
lookup-put_option k j none s = ground arith
lookup-put_option k j (some e) s = lookup-insert k j e s.strings

-- Each key is written once, at some moment of the replay.
pub lookup-put_strings :
    (n : ℕ) (clock : ℕ → ℤ) (now : ℤ) (j : Bytes) (m : Dict Entry) (s : Store)
    → IsDistinct m
    → (i : ℕ) × (lookup j (put_strings n clock now m s).strings
        ≡ or_else (restored now (clock i) (lookup j m)) (lookup j s.strings))
unfolding put_strings lookup restored
lookup-put_strings n clock now j [] s d = (0, unfold restored in refl)
lookup-put_strings n clock now j ((k, e) ∷ m) s (new_key, d) =
    let i = length (string_commands now m) + n in
    let o = restored now (clock i) (some e) in
    let (i', rest) = lookup-put_strings n clock now j m (put_option k o s) d in
    elim (Bool-cases (bytes_eq k j)) [
      | inl q ↦
          (i, rest ∙ rw (lookup-put_option k j o s, q, sym ((bytes_eq_iff k j).0 q), new_key) refl)
      | inr q ↦ (i', rest ∙ rw (lookup-put_option k j o s, q) refl)
    ]
