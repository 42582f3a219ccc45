-- ===== src/Commands/Moves/Collections.antt =====
-- commands/handler.go: the handlers of the commands on lists and hashes, of those that only read, and
-- the store.
use redis_glass.Prelude.{
  ℕ, ◌≡◌, refl, ◌||◌, Option, none, some, List, [], ◌∷◌, length, ◌%◌, ltb, ◌==◌, Bytes, codes, ℤ,
  atoi, Bool-cases, inl, inr,
}
use redis_glass.Store.{Store, syntax, Result, ok, err}
use redis_glass.Store.Hashes.{hset, hdel}
use redis_glass.Store.Keys.{Scanned, page, panic}
use redis_glass.Store.Operations.{Operation, hset_op, hdel_op, perform}
use redis_glass.Commands.State.{Handler, Clock, Handled, refuse, bad_integer, wrong_number}
use redis_glass.Commands.Strings.{echo, always_logged}
use redis_glass.Commands.Collections.{
  ScanOptions, handle_keys, scan_reply, scan_with, scan_from_cursor, handle_scan, handle_push,
  range_reply, handle_lrange, handle_hset, handle_hget, handle_hdel,
}
use redis_glass.Commands.Dispatch.{hset_v, hdel_v}
use redis_glass.Commands.Moves.{
  perform_option, push_method, method_of, reply_or_error-store, reply_anyway-store,
}

range_reply-handler :
    (key : Bytes) (start stop : Option ℤ) (h : Handler) → (range_reply key start stop h).1 ≡ h
unfolding range_reply bad_integer
range_reply-handler key none stop h = refl
range_reply-handler key (some start) none h = refl
range_reply-handler key (some start) (some stop) h = refl

pub handle_lrange-handler : (args : List Bytes) (h : Handler) → (handle_lrange args h).1 ≡ h
unfolding handle_lrange wrong_number
handle_lrange-handler (key ∷ start ∷ stop ∷ []) h =
    range_reply-handler key (atoi start) (atoi stop) h
handle_lrange-handler _ h = refl

pub handle_hget-handler : (args : List Bytes) (h : Handler) → (handle_hget args h).1 ≡ h
unfolding handle_hget wrong_number
handle_hget-handler (key ∷ field ∷ []) h = refl
handle_hget-handler _ h = refl

pub handle_keys-handler :
    (clock : Clock) (args : List Bytes) (h : Handler) → (handle_keys clock args h).1 ≡ h
unfolding handle_keys wrong_number
handle_keys-handler clock (p ∷ []) h = refl
handle_keys-handler clock _ h = refl

pub echo-handler : (args : List Bytes) (h : Handler) → (echo args h).1 ≡ h
unfolding echo wrong_number
echo-handler (m ∷ []) h = refl
echo-handler _ h = refl

-- The handler behind a reply, or behind a panic.
abbrev pub behind : Handler → Option Handled → Handler
behind h none = h
behind h (some r) = r.1

scan_reply-handler : (r : Scanned) (h : Handler) → behind h (scan_reply r h) ≡ h
unfolding scan_reply
scan_reply-handler panic h = refl
scan_reply-handler (page next ks) h = refl

scan_with-handler :
    (clock : Clock) (cursor : ℤ) (r : Result ScanOptions) (h : Handler)
    → behind h (scan_with clock cursor r h) ≡ h
unfolding scan_with refuse bad_integer
scan_with-handler clock cursor (ok (pattern, count)) h = scan_reply-handler _ h
scan_with-handler clock cursor (err syntax) h = refl
scan_with-handler clock cursor (err _) h = refl

scan_from_cursor-handler :
    (clock : Clock) (cursor : Option ℤ) (rest : List Bytes) (h : Handler)
    → behind h (scan_from_cursor clock cursor rest h) ≡ h
unfolding scan_from_cursor refuse
scan_from_cursor-handler clock none rest h = refl
scan_from_cursor-handler clock (some cursor) rest h = scan_with-handler clock cursor _ h

pub handle_scan-handler :
    (clock : Clock) (args : List Bytes) (h : Handler) → behind h (handle_scan clock args h) ≡ h
unfolding handle_scan wrong_number
handle_scan-handler clock [] h = refl
handle_scan-handler clock (cursor ∷ rest) h = scan_from_cursor-handler clock (atoi cursor) rest h

pub handle_push-store :
    (failure name lower : Bytes) (run : Bytes → List Bytes → Store → Result ℕ × Store)
    (op : Bytes → List Bytes → Operation) (args : List Bytes) (h : Handler)
    → ((k : Bytes) (vs : List Bytes) → (run k vs h.store).1 ≡ perform (op k vs) h.store)
    → (handle_push failure name lower run args h).1.store
      ≡ perform_option (push_method op args) h.store
unfolding handle_push wrong_number perform_option
handle_push-store failure name lower run op (k ∷ v ∷ vs) h e =
    reply_or_error-store failure _ (name, k ∷ v ∷ vs) (run k (v ∷ vs)) h (op k (v ∷ vs))
      (e k (v ∷ vs))
handle_push-store failure name lower run op _ h e = refl

pub handle_hset-store :
    (failure : Bytes) (clock : Clock) (args : List Bytes) (h : Handler)
    → (handle_hset failure args h).1.store ≡ perform_option (method_of clock hset_v args) h.store
unfolding handle_hset wrong_number perform perform_option method_of
handle_hset-store failure clock [] h = refl
handle_hset-store failure clock (k ∷ pairs) h =
    elim (Bool-cases (ltb (length (k ∷ pairs)) 3 || length (k ∷ pairs) % 2 == 0)) [
      | inl e ↦ rw e
      | inr e ↦ rw e (
          reply_or_error-store failure _ (codes "HSET", k ∷ pairs) (hset k pairs) h
            (hset_op k pairs) refl)
    ]

pub handle_hdel-store :
    (clock : Clock) (args : List Bytes) (h : Handler)
    → (handle_hdel args h).1.store ≡ perform_option (method_of clock hdel_v args) h.store
unfolding handle_hdel wrong_number always_logged perform perform_option method_of
handle_hdel-store clock (k ∷ f ∷ fs) h =
    reply_anyway-store _ 0 (codes "HDEL", k ∷ f ∷ fs) (λ s. always_logged (hdel k (f ∷ fs) s)) h
      (hdel_op k (f ∷ fs)) refl
handle_hdel-store clock _ h = refl
