-- ===== src/Store/Edges.antt =====
-- store/store.go: inputs at which the code does not do what its documents say.
use redis_glass.Prelude.{
  ℕ, ◌+◌, ◌*◌, ◌≤◌, ◌<◌, ◌≡◌, ap, ◌∙◌, true, none, some, arith, Bytes, length, bytes_eq_refl,
  lookup, dict_laws, ℤ, pos, wrap, ◌+ℤ◌, ◌≤ℤ◌, scale, itoa, two_63, two_64,
}
use redis_glass.Store.{
  Entry, Store, Result, ok, is_expired, expiry_of, set, delete_expired, stale, found, get_read,
  get_finish, get, expire, expire_entry, duration, second, incr_by, check_memory,
}
use redis_glass.Store.Counters.{incr_by_lem, with_sum, view-with_sum}
use redis_glass.Store.Expiry.{read, view, get-view, value_of}

-- For a number of seconds whose nanoseconds lie from 2^63 to 2^64, `Set` chooses no expiry at all.
pub long_expiry_lost :
    (now : ℤ) (n : ℕ)
    → two_63 ≤ n * second
    → n * second < two_64
    → expiry_of now (duration (pos n) second) ≡ none
unfolding expiry_of duration scale wrap
long_expiry_lost now n h k = ground arith

still_expired :
    (now later : ℤ) (e : Entry) (v : Bytes)
    → is_expired now e ≡ true
    → now ≤ℤ later
    → read later (some (record { value = v; expires_at = e.expires_at })) ≡ none
unfolding is_expired
still_expired now later e v x le = ground arith

-- An increment of an expired key that is still stored, where the memory ceiling lets it through,
-- replies as for a fresh counter, but keeps the old expiry: no `GET` from then on sees the counter.
pub incr_expired_lost :
    (now later : ℤ) (key : Bytes) (delta : ℤ) (s : Store) (e : Entry)
    → lookup key s.strings ≡ some e
    → is_expired now e ≡ true
    → check_memory (length key + length (itoa (wrap (pos 0 +ℤ delta)))) s ≡ true
    → now ≤ℤ later
    → ((incr_by now key delta s).0 ≡ ok (wrap (pos 0 +ℤ delta)))
      × ((get later key (incr_by now key delta s).1).0 ≡ none)
incr_expired_lost now later key delta s e h x c le =
    let v : view now s key ≡ none = unfold view in rw (h, x) in
    let o : incr_by now key delta s
        ≡ (ok (wrap (pos 0 +ℤ delta)), with_sum key (wrap (pos 0 +ℤ delta)) s) =
      incr_by_lem now key delta s ∙ rw (v, c) in
    (
      ap (λ (r : Result ℤ × Store). r.0) o,
      ap (λ (r : Result ℤ × Store). (get later key r.1).0) o
          ∙ get-view later key _
          ∙ ap value_of {y = none}
              (view-with_sum later key _ s ∙ rw h (still_expired now later e _ x le)),
    )

not_yet :
    (later until : ℤ) (v : Bytes)
    → later ≤ℤ until
    → value_of (read later (some (record { value = v; expires_at = some until }))) ≡ some v
unfolding is_expired
not_yet later until v le = ground arith

expire-view :
    (now later : ℤ) (key : Bytes) (seconds : ℤ) (s : Store) (e : Entry)
    → lookup key s.strings ≡ some e
    → later ≤ℤ now +ℤ duration seconds second
    → value_of (view later (expire now key seconds s).1 key) ≡ some e.value
unfolding view expire expire_entry
expire-view now later key seconds s e h le =
    rw h
      (simp (dict_laws, bytes_eq_refl) (not_yet later (now +ℤ duration seconds second) e.value le))

read_stale :
    (now : ℤ) (key : Bytes) (s : Store) (e : Entry)
    → lookup key s.strings ≡ some e
    → is_expired now e ≡ true
    → get_read now key s ≡ stale
unfolding get_read found
read_stale now key s e h x = rw (h, x)

-- On an expired key that is still stored `GET` finds nothing, but `EXPIRE` reports the key as
-- existing, and up to the new expiry `GET` finds the old value again.
pub expire_revives :
    (now later : ℤ) (key : Bytes) (seconds : ℤ) (s : Store) (e : Entry)
    → lookup key s.strings ≡ some e
    → is_expired now e ≡ true
    → later ≤ℤ now +ℤ duration seconds second
    → ((get now key s).0 ≡ none)
      × ((expire now key seconds s).0 ≡ true)
      × ((get later key (expire now key seconds s).1).0 ≡ some e.value)
expire_revives now later key seconds s e h x le = (
  get-view now key s ∙ (unfold view in rw (h, x)),
  unfold expire expire_entry in rw h,
  get-view later key _ ∙ expire-view now later key seconds s e h le,
)

-- `Get` looks under the read lock and deletes under the write lock: where it has found an expired
-- entry, a value that a `Set` stores in between, within the memory ceiling, is not seen at any time
-- behind the `Get`.
pub get_race :
    (now between : ℤ) (key value : Bytes) (ttl : ℤ) (s : Store) (e : Entry)
    → lookup key s.strings ≡ some e
    → is_expired now e ≡ true
    → check_memory (length key + length value) s ≡ true
    → (later : ℤ)
    → view later (get_finish key (get_read now key s) (set between key value ttl s).1).1 key ≡ none
get_race now between key value ttl s e h x c later =
    rw (read_stale now key s e h x)
      (unfold view get_finish delete_expired in simp (dict_laws, bytes_eq_refl))
