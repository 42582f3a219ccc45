-- ===== src/Server/Listener.antt =====
-- server/server.go: `Run`, and the count of the open connections.
use redis_glass.Prelude.{
  ℕ, ◌+◌, ◌-◌, ◌≡◌, arith, Bool, true, false, List, [], ◌∷◌, length, ℕ, ◌==◌, if◌then◌else◌,
}

-- What happens to the listener: a client connects, `Accept` fails, or the `handleConn` of a connection
-- returns. A connection has a number.
pub data Incoming : Type 0 where
  connects : Incoming
  accept_fails : Incoming
  connection_ends : ℕ → Incoming

-- `live` holds the connections whose `handleConn` is running.
pub record Listener : Type 0 where
  pub accepting : Bool
  pub next_conn : ℕ
  pub live : List ℕ
  pub conn_count : ℕ

abbrev pub new_listener : Listener
new_listener = record { accepting = true; next_conn = 0; live = []; conn_count = 0 }

unfoldable pub is_live : ℕ → List ℕ → Bool
is_live i [] = false
is_live i (j ∷ js) = let rest = is_live i js in if j == i then true else rest

unfoldable pub drop_conn : ℕ → List ℕ → List ℕ
drop_conn i [] = []
drop_conn i (j ∷ js) = let rest = drop_conn i js in if j == i then js else j ∷ rest

-- Any error of `Accept` ends the loop, and with it the process.
unfoldable pub arrive : Incoming → Listener → Listener
unfolding is_live drop_conn
arrive connects l =
    if l.accepting
    then record l {
      next_conn = l.next_conn + 1;
      live = l.next_conn ∷ l.live;
      conn_count = l.conn_count + 1;
    }
    else l
arrive accept_fails l = record l { accepting = false }
arrive (connection_ends i) l =
    if is_live i l.live
    then record l { live = drop_conn i l.live; conn_count = l.conn_count - 1 }
    else l

unfoldable pub run : List Incoming → Listener → Listener
unfolding arrive
run [] l = l
run (i ∷ is) l = run is (arrive i l)

length-drop_conn :
    (i : ℕ) (js : List ℕ) → is_live i js ≡ true → length (drop_conn i js) + 1 ≡ length js
unfolding is_live drop_conn
length-drop_conn i [] e = cc
length-drop_conn i (j ∷ js) e = ground (arith, length-drop_conn i js)

arrive-count :
    (i : Incoming) (l : Listener)
    → l.conn_count ≡ length l.live
    → (arrive i l).conn_count ≡ length (arrive i l).live
unfolding arrive
arrive-count connects l h = ground arith
arrive-count accept_fails l h = h
arrive-count (connection_ends i) l h = ground (arith, length-drop_conn i l.live)

-- The count of connections is the number of those that are being served.
pub run-count :
    (is : List Incoming) (l : Listener)
    → l.conn_count ≡ length l.live
    → (run is l).conn_count ≡ length (run is l).live
unfolding run
run-count [] l h = h
run-count (i ∷ is) l h = run-count is (arrive i l) (arrive-count i l h)
