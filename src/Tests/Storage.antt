-- ===== src/Tests/Storage.antt =====
-- The theorems on the store, at a store of a few keys.
use redis_glass.Prelude.{
  suc, ◌-◌, two_63, scale, format_ℕ, ◌+ℤ◌, ◌≡◌, ◌↔◌, refl, true, none, some, [], ◌∷◌, Bytes, codes,
  pos, negsuc, arith, bytes_eq, if◌then◌else◌, lookup, insert, length, itoa, wrap, ◌&&◌, int_laws,
  atoi, bytes_eq,
}
use redis_glass.Store
use redis_glass.Store.{
  Entry, Result, ok, err, new, set, get, get_finish, get_read, incr_by, expire, second, duration,
  expiry_of, is_expired, check_memory,
}
use redis_glass.Store.Keys.{match_glob, filter, all_keys, keys, panic, scan}
use redis_glass.Store.Keys.Members.{contains, is_present, contains-keys}
use redis_glass.Store.Keys.Paging.{collect, collect_all, scan_panics}
use redis_glass.Store.Sampler.{sample_expire}
use redis_glass.Store.Sampler.Invisible.{SameFrom, sample_expire-SameFrom}
use redis_glass.Store.Expiry.{read, view, IsHeld, get-IsHeld, view-get, view-set}
use redis_glass.Store.Counters.{outcome, incr_by_again}
use redis_glass.Store.Edges.{long_expiry_lost, incr_expired_lost, expire_revives, get_race}
use redis_glass.Store.Operations.{set_op, perform, perform-TracksExpiry, perform-IsWithinLimit}
use redis_glass.Store.Tracking.{TracksExpiry, TracksExpiry-new}
use redis_glass.Store.Memory.{IsWithinLimit}

abbrev key_a : Bytes
key_a = codes "a"

abbrev old_entry : Entry
old_entry = record { value = codes "7"; expires_at = some (pos 5) }

-- A counter that expires at time 5.
abbrev counter : Store.Store
counter = record new { strings = (key_a, old_entry) ∷ []; expiry_keys = (key_a, tt) ∷ [] }

sample_expire-SameFrom_example :
    SameFrom (pos 9) counter (sample_expire (λ r. pos 8) (λ r s. key_a ∷ []) counter)
sample_expire-SameFrom_example =
    sample_expire-SameFrom (λ r. pos 8) (λ r s. key_a ∷ []) (pos 9) (λ r. omega int_laws) counter

counter_listed : length (all_keys (pos 3) counter) ≡ 1
unfolding all_keys
counter_listed = refl

collect_all_example :
    collect (suc (length (all_keys (pos 3) counter))) (pos 3) counter (codes "*") 10 0
    ≡ some (filter (match_glob (codes "*")) (all_keys (pos 3) counter))
collect_all_example =
    collect_all (pos 3) counter (codes "*") 10 (omega arith) (omega (arith, counter_listed))

abbrev counter_after : Store.Store
counter_after = (incr_by (pos 3) key_a (pos 2) counter).1

incr_by_again_example :
    incr_by (pos 4) key_a (negsuc 0) counter_after
    ≡ outcome (some (pos 9)) key_a (negsuc 0) counter_after
unfolding incr_by view lookup bytes_eq atoi check_memory wrap ◌+ℤ◌ insert itoa format_ℕ
incr_by_again_example =
    incr_by_again (pos 3) (pos 4) key_a (pos 2) (negsuc 0) (pos 9) counter counter_after
      (record { value = codes "9"; expires_at = some (pos 5) }) refl refl

perform-TracksExpiry_example :
    TracksExpiry (perform (set_op (pos 1) key_a (codes "v") (pos 10)) new)
perform-TracksExpiry_example =
    perform-TracksExpiry (set_op (pos 1) key_a (codes "v") (pos 10)) new TracksExpiry-new

abbrev limited : Store.Store
limited = record counter { max_memory = pos 4 }

perform-IsWithinLimit_example :
    IsWithinLimit (perform (set_op (pos 1) key_a (codes "vw") (pos 10)) limited)
perform-IsWithinLimit_example =
    perform-IsWithinLimit (set_op (pos 1) key_a (codes "vw") (pos 10)) limited
      (λ p. unfold Store.approx_memory Store.weigh in omega int_laws)

view-set_example : view (pos 7) (set (pos 6) key_a (codes "new") (pos 0) counter).1 (codes "b") ≡ (
    if bytes_eq key_a (codes "b")
    then read
        (pos 7)
        (some (record { value = codes "new"; expires_at = expiry_of (pos 6) (pos 0) }))
    else view (pos 7) counter (codes "b"))
view-set_example =
    view-set (pos 6) (pos 7) key_a (codes "new") (pos 0) counter (unfold check_memory in refl)
      (codes "b")

view-get_example :
    ((j : Bytes) → view (pos 8) (get (pos 6) key_a counter).1 j ≡ view (pos 8) counter j)
    × ((get (pos 6) key_a counter).1.lists ≡ counter.lists)
    × ((get (pos 6) key_a counter).1.hashes ≡ counter.hashes)
view-get_example = view-get (pos 6) (pos 8) key_a counter (omega int_laws)

get-IsHeld_example :
    ((get (pos 5) key_a counter).0 ≡ some (codes "7")) ↔ IsHeld (pos 5) key_a (codes "7") counter
get-IsHeld_example = get-IsHeld (pos 5) key_a (codes "7") counter

contains-keys_example :
    contains key_a (keys (pos 4) (codes "?") counter)
    ≡ match_glob (codes "?") key_a && is_present (pos 4) key_a counter
contains-keys_example =
    contains-keys (pos 4) (codes "?") key_a counter (unfold lookup in (refl, tt))

long_expiry_lost_example : expiry_of (pos 1) (duration (pos 10000000000) second) ≡ none
long_expiry_lost_example = long_expiry_lost (pos 1) 10000000000 (omega arith) (omega arith)

incr_expired_lost_example :
    ((incr_by (pos 6) key_a (pos 1) counter).0 ≡ ok (wrap (pos 1)))
    × ((get (pos 7) key_a (incr_by (pos 6) key_a (pos 1) counter).1).0 ≡ none)
unfolding lookup is_expired check_memory bytes_eq ◌+ℤ◌
incr_expired_lost_example =
    incr_expired_lost (pos 6) (pos 7) key_a (pos 1) counter old_entry refl refl refl
      (omega int_laws)

expire_revives_example :
    ((get (pos 6) key_a counter).0 ≡ none)
    × ((expire (pos 6) key_a (pos 1) counter).0 ≡ true)
    × ((get (pos 7) key_a (expire (pos 6) key_a (pos 1) counter).1).0 ≡ some (codes "7"))
unfolding lookup is_expired duration bytes_eq ◌+ℤ◌ wrap scale
expire_revives_example =
    expire_revives (pos 6) (pos 7) key_a (pos 1) counter old_entry refl refl (omega int_laws)

get_race_example :
    view
      (pos 8)
      (get_finish key_a
        (get_read (pos 6) key_a counter)
        (set (pos 7) key_a (codes "x") (pos 0) counter).1).1
      key_a
    ≡ none
unfolding lookup is_expired check_memory bytes_eq
get_race_example =
    get_race (pos 6) (pos 7) key_a (codes "x") (pos 0) counter old_entry refl refl refl (pos 8)

abbrev two_keys : Store.Store
two_keys = record counter { lists = (codes "b", codes "x" ∷ []) ∷ [] }

two_keys_listed : length (all_keys (pos 3) two_keys) ≡ 2
unfolding all_keys
two_keys_listed = refl

scan_panics_example : scan (pos 3) (pos 1) (codes "*") (pos (two_63 - 1)) two_keys ≡ panic
scan_panics_example =
    scan_panics (pos 3) two_keys (codes "*") 1 (two_63 - 1) (omega (arith, two_keys_listed))
      (omega arith) (omega arith) (omega arith)
