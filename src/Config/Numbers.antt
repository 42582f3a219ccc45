-- ===== src/Config/Numbers.antt =====
-- main.go: `parseMBEnv` on the sizes that it is given.
use redis_glass.Prelude.{
  ℕ, ◌*◌, ◌^◌, ◌<◌, ◌≡◌, refl, arith, true, false, some, [], ◌∷◌, Bytes, ℤ, pos, wrap, scale, itoa,
  atoi, atoi-itoa, two_63,
}
use redis_glass.Store.{Store, set_max_memory, check_memory}
use redis_glass.Config.{Env, is_empty, mega, in_bytes, parse_mb_env}

is_number : (s : Bytes) (z : ℤ) → atoi s ≡ some z → is_empty s ≡ false
unfolding atoi
is_number [] z e = cc
is_number (c ∷ s) z e = refl

in_bytes-wraps : (k : ℕ) → in_bytes (pos (k * 2 ^ 44)) ≡ pos 0
unfolding in_bytes wrap scale
in_bytes-wraps k = ground arith

pub in_bytes_exact : (mb : ℕ) → mb * mega < two_63 → in_bytes (pos mb) ≡ pos (mb * mega)
unfolding in_bytes wrap scale
in_bytes_exact mb h = ground arith

parse_mb_env_number :
    (env : Env) (name : Bytes) (default_mb : ℤ) (mb : ℕ)
    → env name ≡ some (itoa (pos mb))
    → 0 < mb
    → mb < two_63
    → parse_mb_env env name default_mb ≡ in_bytes (pos mb)
unfolding parse_mb_env
parse_mb_env_number env name default_mb mb e p h =
    let read = atoi-itoa (pos mb) (omega arith, omega arith) in
    rw (e, is_number (itoa (pos mb)) (pos mb) read, read) (ground arith)

-- A ceiling of any positive multiple of 2 ^ 44 megabytes that 64 bits hold is no ceiling: its bytes wrap
-- around to 0, and every write is let through.
pub ceiling_lost :
    (env : Env) (name : Bytes) (default_mb : ℤ) (k n : ℕ) (s : Store)
    → env name ≡ some (itoa (pos (k * 2 ^ 44)))
    → 0 < k
    → k * 2 ^ 44 < two_63
    → check_memory n (set_max_memory (parse_mb_env env name default_mb) s) ≡ true
unfolding set_max_memory check_memory
ceiling_lost env name default_mb k n s e p h =
    rw (parse_mb_env_number env name default_mb (k * 2 ^ 44) e (omega arith) h, in_bytes-wraps k)
      refl
