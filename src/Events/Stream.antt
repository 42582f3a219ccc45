-- ===== src/Events/Stream.antt =====
-- events/events.go: the subscribers of the live stream, each with the buffer of its channel.
use redis_glass.Prelude.{
  ℕ, ◌+◌, ◌-◌, Bool, true, false, List, [], ◌∷◌, ◌++◌, length, Bytes, ltb, ◌==◌, if◌then◌else◌,
}

pub record Event : Type 0 where
  pub time : ℕ
  pub command : Bytes
  pub args : List Bytes
  pub client_addr : Bytes
  pub duration_us : ℕ

abbrev pub buffer_size : ℕ
buffer_size = 32

-- `subs` holds the events that each reader has yet to take.
pub record Subscribers : Type 0 where
  pub subs : List (ℕ × List Event)
  pub next_sub_id : ℕ
  pub sub_count : ℕ

abbrev pub no_subscribers : Subscribers
no_subscribers = record { subs = []; next_sub_id = 0; sub_count = 0 }

unfoldable pub subscribe : Subscribers → ℕ × Subscribers
subscribe r = (
  r.next_sub_id,
  record {
    subs = (r.next_sub_id, []) ∷ r.subs;
    next_sub_id = r.next_sub_id + 1;
    sub_count = r.sub_count + 1;
  },
)

unfoldable pub has_sub : ℕ → List (ℕ × List Event) → Bool
has_sub id [] = false
has_sub id ((j, b) ∷ subs) = if j == id then true else has_sub id subs

unfoldable pub remove_sub : ℕ → List (ℕ × List Event) → List (ℕ × List Event)
remove_sub id [] = []
remove_sub id ((j, b) ∷ subs) = if j == id then subs else (j, b) ∷ remove_sub id subs

-- A second call does nothing; a subscriber is in the map exactly until its first call.
unfoldable pub unsubscribe : ℕ → Subscribers → Subscribers
unfolding has_sub remove_sub
unsubscribe id r =
    if has_sub id r.subs
    then record r { subs = remove_sub id r.subs; sub_count = r.sub_count - 1 }
    else r

-- `select { case ch <- evt: default: }`
unfoldable pub offer : Event → List Event → List Event
offer evt buffer = if ltb (length buffer) buffer_size then buffer ++ evt ∷ [] else buffer

unfoldable pub offer_all : Event → List (ℕ × List Event) → List (ℕ × List Event)
unfolding offer
offer_all evt [] = []
offer_all evt ((id, buffer) ∷ subs) = (id, offer evt buffer) ∷ offer_all evt subs

-- `if r.subCount.Load() > 0 { r.broadcast(…) }`
unfoldable pub broadcast : Event → Subscribers → Subscribers
unfolding offer_all
broadcast evt r = if ltb 0 r.sub_count then record r { subs = offer_all evt r.subs } else r
