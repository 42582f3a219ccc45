-- ===== src/Config.antt =====
-- main.go: the configuration, from the environment.
pub mod Numbers
use redis_glass.Prelude.{
  ℕ, zero, suc, ◌*◌, Bool, true, false, ◌||◌, ◌&&◌, not, Option, none, some, List, [], ◌∷◌, ◌++◌,
  length, Bytes, codes, bytes_eq, to_lower, ◌==◌, ltb, ℤ, pos, negsuc, leb_ℤ, ltb_ℤ, pos_part,
  neg_part, ◌/◌, ◌-ℤ◌, scale, wrap, atoi, if◌then◌else◌,
}
use redis_glass.Store.{Store, new, set_max_memory, millisecond, duration}
use redis_glass.Aof.{Replayed, done, crashed, replay}
use redis_glass.Aof.Durable.{sync_locked}
use redis_glass.Aof.Rewrite
use redis_glass.Aof.Rewrite.{FsyncPolicy, every_sec, always, never}
use redis_glass.Events.{Recorder}
use redis_glass.Events.Hotness.{new_hotkeys}
use redis_glass.Events.SlowQueries.{new_slowlog}
use redis_glass.Events.Stream.{no_subscribers}
use redis_glass.Commands.State.{Handler}
use redis_glass.Server.{Server}

-- `os.LookupEnv`, and `os.Getenv`.
abbrev pub Env : Type 0
Env = Bytes → Option Bytes

abbrev or_empty : Option Bytes → Bytes
or_empty none = []
or_empty (some v) = v

abbrev pub getenv : Env → Bytes → Bytes
getenv env name = or_empty (env name)

abbrev pub is_empty : Bytes → Bool
is_empty [] = true
is_empty (c ∷ s) = false

abbrev pub mega : ℕ
mega = 1024 * 1024

-- `mb * 1024 * 1024`, in 64 bits.
unfoldable pub in_bytes : ℤ → ℤ
in_bytes mb = wrap (scale mb mega)

abbrev mb_of : ℤ → Option ℤ → ℤ
mb_of default_mb none = in_bytes default_mb
mb_of default_mb (some mb) = if leb_ℤ mb (pos 0) then in_bytes default_mb else in_bytes mb

unfoldable pub parse_mb_env : Env → Bytes → ℤ → ℤ
unfolding in_bytes
parse_mb_env env name default_mb =
    let v = getenv env name in if is_empty v then in_bytes default_mb else mb_of default_mb (atoi v)

abbrev ms_of : ℤ → Option ℤ → ℤ
ms_of default_ms none = duration default_ms millisecond
ms_of default_ms (some ms) =
    if ltb_ℤ ms (pos 0) then duration default_ms millisecond else duration ms millisecond

unfoldable pub parse_ms_env : Env → Bytes → ℤ → ℤ
parse_ms_env env name default_ms =
    let v = getenv env name in
    if is_empty v then duration default_ms millisecond else ms_of default_ms (atoi v)

-- `strings.TrimSpace` on ASCII text.
abbrev is_space : ℕ → Bool
is_space c = c == 32 || (ltb 8 c && ltb c 14)

trim_left : Bytes → Bytes
trim_left [] = []
trim_left (c ∷ s) = let rest = trim_left s in if is_space c then rest else c ∷ s

-- A space stays where something other than spaces is behind it.
trim_right : Bytes → Bytes
trim_right [] = []
trim_right (c ∷ s) = let rest = trim_right s in if is_space c && is_empty rest then [] else c ∷ rest

unfoldable pub trim_space : Bytes → Bytes
unfolding trim_left trim_right
trim_space s = trim_right (trim_left s)

-- `strings.Split(s, ",")`.
push_first : ℕ → List Bytes → List Bytes
push_first c [] = (c ∷ []) ∷ []
push_first c (p ∷ ps) = (c ∷ p) ∷ ps

unfoldable pub split_commas : Bytes → List Bytes
unfolding push_first
split_commas [] = [] ∷ []
split_commas (c ∷ s) =
    let rest = split_commas s in if c == b',' then [] ∷ rest else push_first c rest

keep_patterns : List Bytes → List Bytes
unfolding trim_space
keep_patterns [] = []
keep_patterns (p ∷ ps) =
    let rest = keep_patterns ps in let p' = trim_space p in if is_empty p' then rest else p' ∷ rest

unfoldable pub sensitive_key_patterns : Env → List Bytes
unfolding keep_patterns split_commas
sensitive_key_patterns env =
    let v = getenv env (codes "SENSITIVE_KEYS") in
    if is_empty v then [] else keep_patterns (split_commas v)

unfoldable pub dashboard_port_or_default : Env → Bytes
dashboard_port_or_default env = or_default (env (codes "DASHBOARD_PORT"))
  where
    or_default : Option Bytes → Bytes
    or_default none = codes "8080"
    or_default (some port) = port

-- `ParseFsyncPolicy` of store/aof.go.
unfoldable pub parse_fsync_policy : Bytes → FsyncPolicy
unfolding trim_space
parse_fsync_policy s =
    let t = to_lower (trim_space s) in
    if bytes_eq t (codes "always")
    then always
    else if bytes_eq t (codes "no")
    then never
    else every_sec
