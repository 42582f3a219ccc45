-- ===== src/Events/Bounds.antt =====
-- events/events.go: the subscribers of the live stream, under each call on them.
use redis_glass.Prelude.{
  ℕ, suc, ◌+◌, ◌≤◌, ◌<◌, ◌≡◌, inl, inr, refl, sym, ap, ◌∙◌, true, List, [], ◌∷◌, length,
  length-append, ltb, ltb→lt, All, arith, ◌==◌, Bool-cases, if-keeps,
}
use redis_glass.Events.Stream.{
  Event, buffer_size, Subscribers, subscribe, unsubscribe, has_sub, remove_sub, offer, offer_all,
  broadcast,
}

-- A subscription with an identifier below `n` whose buffer is no longer than its channel's.
unfoldable pub IsBuffered : ℕ → ℕ × List Event → Type 0
IsBuffered n (id, buffer) = (id < n) × (length buffer ≤ buffer_size)

-- The count is the number of subscriptions, and their identifiers were all handed out.
unfoldable pub IsBounded : Subscribers → Type 0
IsBounded r = (r.sub_count ≡ length r.subs) × All (IsBuffered r.next_sub_id) r.subs

All-IsBuffered :
    (n : ℕ) (subs : List (ℕ × List Event)) → All (IsBuffered n) subs → All (IsBuffered (n + 1)) subs
unfolding IsBuffered
All-IsBuffered n [] h = tt
All-IsBuffered n ((id, b) ∷ subs) ((l, m), h) = ((omega arith, m), All-IsBuffered n subs h)

subscribe-IsBounded : (r : Subscribers) → IsBounded r → IsBounded (subscribe r).1
unfolding IsBounded subscribe IsBuffered
subscribe-IsBounded r (c, h) =
    (omega arith, ((omega arith, omega arith), All-IsBuffered r.next_sub_id r.subs h))

remove_sub-IsBuffered :
    (n id : ℕ) (subs : List (ℕ × List Event))
    → All (IsBuffered n) subs
    → All (IsBuffered n) (remove_sub id subs)
unfolding remove_sub
remove_sub-IsBuffered n id [] h = tt
remove_sub-IsBuffered n id ((j, b) ∷ subs) (k, h) =
    if-keeps (All (IsBuffered n)) (j == id) subs ((j, b) ∷ remove_sub id subs) h
      (k, remove_sub-IsBuffered n id subs h)

length-remove_sub :
    (id : ℕ) (subs : List (ℕ × List Event))
    → has_sub id subs ≡ true
    → length (remove_sub id subs) + 1 ≡ length subs
unfolding remove_sub has_sub
length-remove_sub id [] e = grind arith
length-remove_sub id ((j, b) ∷ subs) e = elim (Bool-cases (j == id)) [
  | inl q ↦ rw (q) (omega arith)
  | inr q ↦ rw (q) (omega (arith, length-remove_sub id subs (rw q at e)))
]

unsubscribe-IsBounded : (id : ℕ) (r : Subscribers) → IsBounded r → IsBounded (unsubscribe id r)
unfolding IsBounded unsubscribe
unsubscribe-IsBounded id r (c, h) = elim (Bool-cases (has_sub id r.subs)) [
  | inl q ↦ rw (q) (
    omega (arith, length-remove_sub id r.subs q),
    remove_sub-IsBuffered r.next_sub_id id r.subs h,
  )
  | inr q ↦ rw (q) (c, h)
]

length-offer :
    (evt : Event) (buffer : List Event)
    → length buffer ≤ buffer_size
    → length (offer evt buffer) ≤ buffer_size
unfolding offer
length-offer evt buffer h = elim (Bool-cases (ltb (length buffer) buffer_size)) [
  | inl q ↦
      rw (q) (omega (arith, length-append buffer (evt ∷ []), ltb→lt (length buffer) buffer_size q))
  | inr q ↦ rw (q) h
]

offer_all-IsBuffered :
    (n : ℕ) (evt : Event) (subs : List (ℕ × List Event))
    → All (IsBuffered n) subs
    → All (IsBuffered n) (offer_all evt subs)
unfolding offer_all IsBuffered
offer_all-IsBuffered n evt [] h = tt
offer_all-IsBuffered n evt ((id, b) ∷ subs) ((l, m), h) =
    ((l, length-offer evt b m), offer_all-IsBuffered n evt subs h)

length-offer_all :
    (evt : Event) (subs : List (ℕ × List Event)) → length (offer_all evt subs) ≡ length subs
unfolding offer_all
length-offer_all evt [] = refl
length-offer_all evt ((id, b) ∷ subs) = ap suc (length-offer_all evt subs)

broadcast-IsBounded : (evt : Event) (r : Subscribers) → IsBounded r → IsBounded (broadcast evt r)
unfolding IsBounded broadcast
broadcast-IsBounded evt r (c, h) =
    if-keeps IsBounded (ltb 0 r.sub_count) (record r { subs = offer_all evt r.subs }) r
      (c ∙ sym (length-offer_all evt r.subs), offer_all-IsBuffered r.next_sub_id evt r.subs h)
      (c, h)

-- A call on the subscribers.
pub data Action : Type 0 where
  subscribed : Action
  unsubscribed : ℕ → Action
  published : Event → Action

unfoldable pub act : Action → Subscribers → Subscribers
act subscribed r = (subscribe r).1
act (unsubscribed id) r = unsubscribe id r
act (published evt) r = broadcast evt r

-- Each call on the subscribers keeps that `subCount` is their number, that their identifiers are
-- below the next one, and that no buffer holds more than 32 events.
pub act-IsBounded : (a : Action) (r : Subscribers) → IsBounded r → IsBounded (act a r)
unfolding act
act-IsBounded subscribed r h = subscribe-IsBounded r h
act-IsBounded (unsubscribed id) r h = unsubscribe-IsBounded id r h
act-IsBounded (published evt) r h = broadcast-IsBounded evt r h
