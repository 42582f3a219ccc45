-- ===== src/Dashboard/Login.antt =====
-- monitor/dashboard.go: `requireAuth`.
use redis_glass.Prelude.{
  ◌≡◌, refl, arith, Bool, false, not, ◌||◌, Option, none, some, Bytes, bytes_eq, bytes_eq_iff,
  if◌then◌else◌,
}
use redis_glass.Config.{is_empty}
use redis_glass.Startup.{Dashboard}
use redis_glass.Dashboard.{
  Request, Choice, Answer, unauthorized, given, has_credentials, route, require_auth, serve_request,
}

-- Whether a request has this password, by comparison of the passwords themselves.
abbrev pub knows : Bytes → Option Bytes → Bool
knows password none = false
knows password (some pass) = bytes_eq password pass

same_answer :
    (sha256 : Bytes → Bytes) (password pass : Bytes)
    → ((p : Bytes) → sha256 p ≡ sha256 password → p ≡ password)
    → bytes_eq (sha256 password) (sha256 pass) ≡ bytes_eq password pass
same_answer sha256 password pass h =
    grind (arith, bytes_eq_iff (sha256 password) (sha256 pass), bytes_eq_iff password pass, h pass)

guarded :
    (sha256 : Bytes → Bytes) (password : Bytes) (c : Option Bytes) (x : Answer)
    → ((p : Bytes) → sha256 p ≡ sha256 password → p ≡ password)
    → (if not (has_credentials c) || not (bytes_eq (sha256 password) (sha256 (given c)))
        then unauthorized
        else x)
      ≡ (if knows password c then x else unauthorized)
guarded sha256 password none x h = refl
guarded sha256 password (some pass) x h = rw (same_answer sha256 password pass h) (ground arith)

-- With a password, and where no other text has the password's hash, the dashboard answers a request as
-- its routes do where the request has the password, and refuses each other request, on every path.
pub serve_request_lem :
    (choose : Bytes → Choice) (sha256 : Bytes → Bytes) (src : Dashboard) (r : Request)
    → is_empty src.password ≡ false
    → ((p : Bytes) → sha256 p ≡ sha256 src.password → p ≡ src.password)
    → serve_request choose sha256 src r
      ≡ (if knows src.password r.credentials then route choose sha256 r else unauthorized)
unfolding serve_request require_auth
serve_request_lem choose sha256 src r set h = rw set (guarded sha256 src.password r.credentials _ h)
