-- ===== src/Auth/Sessions.antt =====
-- internal/auth/session.go, with the types that it uses of internal/auth/types.go. Each method is
-- one step, with the clock readings and the random bytes as arguments; `GetSession` and
-- `RefreshSession` release the mutex in between, and calls that fall there are not modelled.
pub mod Runs
pub mod Calls
pub mod Lifetime
pub mod Logout
use Prim.Native.Char.{Char}
use go_kube_ops_view.Prelude.{
  ℕ, zero, suc, ◌+◌, ◌*◌, ◌/◌, ◌%◌, String, Bool, true, false, Option, none, some, List, [], ◌∷◌,
  Result, ok, err, panic, ◌==◌, ◌&&◌, ltb, if◌then◌else◌, length, nth_char,
}
use go_kube_ops_view.Dict
use go_kube_ops_view.Dict.{Dict, Entries}
use go_kube_ops_view.Json.{Json}
use go_kube_ops_view.Models.{Time, GoMap}

pub record User : Type 0 where
  pub id : String
  pub email : String
  pub name : String
  pub username : String
  pub groups : List String
  pub claims : GoMap Json

pub record Session : Type 0 where
  pub id : String
  pub user_id : String
  pub user : User
  pub created_at : Time
  pub expires_at : Time
  pub last_seen : Time

-- The codes of the `AuthError`s that this file makes, and the failure of the random source, which
-- has the code of `session_not_found`.
pub data SessionError : Type 0 where
  session_not_found session_expired id_generation_failed : SessionError

-- A `time.Duration`: `backward n` is -(n + 1).
pub data Duration : Type 0 where
  forward backward : ℕ → Duration

pub record SessionManager : Type 0 where
  pub sessions : Dict Session
  pub session_ttl : ℕ

abbrev pub Outcome : Type 0 → Type 0
Outcome A = Result SessionError A × SessionManager

-- 24 * time.Hour
abbrev pub day : ℕ
day = 86400 * 1000000000

unfoldable pub new_session_manager : Duration → SessionManager
new_session_manager (forward zero) = record { sessions = Dict.empty; session_ttl = day }
new_session_manager (forward (suc n)) = record { sessions = Dict.empty; session_ttl = suc n }
new_session_manager (backward n) = record { sessions = Dict.empty; session_ttl = day }

digit : ℕ → Char
digit n = nth_char n "ABCDEFGHIJKLMNOPQRSTUVWXYZabcdefghijklmnopqrstuvwxyz0123456789-_"

-- base64.URLEncoding.EncodeToString
unfoldable pub base64 : List ℕ → String
unfolding digit nth_char
base64 [] = String.[]
base64 (a ∷ []) = String.◌∷◌ (digit (a / 4)) (String.◌∷◌ (digit (a % 4 * 16)) "==")
base64 (a ∷ b ∷ []) =
    String.◌∷◌ (digit (a / 4))
      (String.◌∷◌ (digit (a % 4 * 16 + b / 16)) (String.◌∷◌ (digit (b % 16 * 4)) "="))
base64 (a ∷ b ∷ c ∷ l) = String.◌∷◌ (digit (a / 4)) (
    String.◌∷◌ (digit (a % 4 * 16 + b / 16))
      (String.◌∷◌ (digit (b % 16 * 4 + c / 64)) (String.◌∷◌ (digit (c % 64)) (base64 l))))

-- A nil user panics when its ID is read.
unfoldable pub create_session :
    Option (List ℕ) → Option User → Time → SessionManager → Outcome Session
create_session none user now m = (err id_generation_failed, m)
create_session (some bytes) none now m = (panic, m)
create_session (some bytes) (some user) now m =
    let s : Session = record {
      id = base64 bytes;
      user_id = user.id;
      user = user;
      created_at = now;
      expires_at = now + m.session_ttl;
      last_seen = now;
    } in
    (ok s, record m { sessions = Dict.put m.sessions (base64 bytes) s })

unfoldable pub delete_session : String → SessionManager → Outcome (Unit {0})
delete_session id m = (ok tt, record m { sessions = Dict.remove m.sessions id })

unfoldable pub get_session : String → Time → Time → SessionManager → Outcome Session
unfolding delete_session
get_session id now seen m = elim (Dict.get m.sessions id) [
  | none ↦ (err session_not_found, m)
  | some s ↦
      let s' : Session = record s { last_seen = seen } in
      if ltb s.expires_at now
      then (err session_expired, (delete_session id m).1)
      else (ok s', record m { sessions = Dict.put m.sessions id s' })
]

unfoldable pub refresh_session : String → Time → Time → Time → SessionManager → Outcome Session
refresh_session id now seen from m =
    let (r, m') = get_session id now seen m in
    elim r [
      | err e ↦ (err e, m')
      | panic ↦ (panic, m')
      | ok s ↦
          let s' : Session = record s { expires_at = from + m'.session_ttl } in
          (ok s', record m' { sessions = Dict.put m'.sessions id s' })
    ]

-- A loop over the sessions that keeps the ones with a property, in the map's order.
unfoldable pub those : (Session → Bool) → Entries Session → List Session
those p [] = []
those p (e ∷ es) = let rest = those p es in if p e.1 then e.1 ∷ rest else rest

-- One reading of the clock serves the loop, which reads it for each session of the user.
unfoldable pub get_user_sessions : String → Time → SessionManager → List Session
get_user_sessions id now m = those (λ s. s.user_id == id && ltb now s.expires_at) m.sessions.entries

unfoldable pub delete_user_sessions : String → SessionManager → Outcome (Unit {0})
delete_user_sessions id m =
    (ok tt, record m { sessions = Dict.delete_if (λ k s. s.user_id == id) m.sessions })

unfoldable pub get_active_sessions : Time → SessionManager → List Session
get_active_sessions now m = those (λ s. ltb now s.expires_at) m.sessions.entries

unfoldable pub get_session_count : Time → SessionManager → ℕ
get_session_count now m = length (those (λ s. ltb now s.expires_at) m.sessions.entries)

-- One tick of the loop of `cleanupExpiredSessions`.
unfoldable pub cleanup_expired_sessions : Time → SessionManager → SessionManager
cleanup_expired_sessions now m = record m {
  sessions = Dict.delete_if (λ k s. ltb s.expires_at now) m.sessions;
}

unfoldable pub close : SessionManager → Outcome (Unit {0})
close m = (ok tt, record m { sessions = Dict.empty })
