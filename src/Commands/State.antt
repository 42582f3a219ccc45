-- ===== src/Commands/State.antt =====
-- commands/handler.go: the state that the handlers share, and `mutateAndLog`.
use redis_glass.Prelude.{ℕ, Option, none, some, ◌++◌, Bytes, codes, ℤ, if◌then◌else◌}
use redis_glass.Resp.{write_error}
use redis_glass.Store.{Store, Error, oom}
use redis_glass.Aof.{Command}
use redis_glass.Aof.Rewrite.{Aof, write_locked}
use redis_glass.Events.{Recorder}

-- `Handler`, and what it points to.
pub record Handler : Type 0 where
  pub store : Store
  pub password : Bytes
  pub aof : Option Aof
  pub events : Option Recorder

-- The times at which a command reads the clock: by the store, at the second reading of `TTL`, at each
-- key of `EXISTS` (by the number of keys left behind it), and in seconds and microseconds by the recorder.
pub record Clock : Type 0 where
  pub now : ℤ
  pub until : ℤ
  pub each : ℕ → ℤ
  pub seconds : ℕ
  pub elapsed_us : ℕ

-- A reply and the state behind it.
abbrev pub Handled : Type 0
Handled = Bytes × Handler

abbrev pub reply : Bytes → Handler → Handled
reply bytes h = (bytes, h)

unfoldable pub refuse : Bytes → Handler → Handled
refuse msg h = (write_error msg, h)

-- How a mutation ends: with its reply, with nothing to log (`errSkipAOFLog`), or with an error.
pub data Mutation (A : Type 0) : Type 0 where
  logged : A → Mutation A
  skipped : A → Mutation A
  failed : Error → Mutation A

-- What `mutateAndLog` leaves: a value, an error of the store, or an error of the log, behind which
-- the mutation has happened all the same.
pub data Logged (A : Type 0) : Type 0 where
  success : A → Logged A
  store_error : Error → Logged A
  log_error : A → Logged A

unfoldable pub log_entry : {A : Type 0} → Command → A → Option Aof → Logged A × Option Aof
log_entry c a none = (success a, none)
log_entry c a (some f) =
    let (written, f') = write_locked c f in (if written then success a else log_error a, some f')

unfoldable pub finish_mutation :
    {A : Type 0} → Command → Mutation A → Store → Handler → Logged A × Handler
unfolding log_entry
finish_mutation c (logged a) s h =
    let (r, f) = log_entry c a h.aof in (r, record h { store = s; aof = f })
finish_mutation c (skipped a) s h = (success a, record h { store = s })
finish_mutation c (failed e) s h = (store_error e, record h { store = s })

unfoldable pub mutate_and_log :
    {A : Type 0} → Command → (Store → Mutation A × Store) → Handler → Logged A × Handler
unfolding finish_mutation
mutate_and_log c mutate h = let (m, s) = mutate h.store in finish_mutation c m s h

-- The text of an error of the store.
unfoldable pub error_text : Error → Bytes
error_text oom = codes "OOM command not allowed when used memory > 'maxmemory'"
error_text _ = codes "ERR value is not an integer or out of range"

-- The log's error comes from the operating system, and so does its text.
module _ (log_failure : Bytes) where
  -- The reply behind `writeStoreErr`.
  unfoldable pub reply_or_error : {A : Type 0} → (A → Bytes) → Logged A × Handler → Handled
  unfolding error_text
  reply_or_error f (success a, h) = (f a, h)
  reply_or_error f (store_error e, h) = (write_error (error_text e), h)
  reply_or_error f (log_error a, h) = (write_error (codes "ERR " ++ log_failure), h)

-- The handlers of DEL, EXPIRE, FLUSHALL and HDEL drop the error.
unfoldable pub reply_anyway : {A : Type 0} → (A → Bytes) → A → Logged A × Handler → Handled
reply_anyway f d (success a, h) = (f a, h)
reply_anyway f d (store_error e, h) = (f d, h)
reply_anyway f d (log_error a, h) = (f a, h)

unfoldable pub bad_integer : Handler → Handled
unfolding refuse
bad_integer = refuse (codes "ERR value is not an integer or out of range")

unfoldable pub wrong_number : Bytes → Handler → Handled
unfolding refuse
wrong_number name =
    refuse (codes "ERR wrong number of arguments for '" ++ (name ++ codes "' command"))
