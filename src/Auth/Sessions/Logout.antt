-- ===== src/Auth/Sessions/Logout.antt =====
-- internal/auth/session.go: logging a user out everywhere.
use go_kube_ops_view.Prelude.{
  ℕ, String, ◌≡◌, ◌≢◌, refl, Bool, true, false, not, Option, none, some, List, arith, ◌==◌, ok, All,
  ltb, subst, sym, ◌+◌, Result, eq_iff,
}
use go_kube_ops_view.Dict
use go_kube_ops_view.Dict.{Dict, get-put, get-remove, get-delete_if, get-empty}
use go_kube_ops_view.Models.{Time}
use go_kube_ops_view.Auth.Sessions.{
  Outcome, SessionError, User, Session, SessionManager, base64, create_session, get_session,
  refresh_session, delete_session, delete_user_sessions, cleanup_expired_sessions, close,
}
use go_kube_ops_view.Auth.Sessions.Calls.{
  found, missing, late, live, get_missing, get_late, get_live, refresh_missing, refresh_late,
  refresh_live,
}
use go_kube_ops_view.Auth.Sessions.Runs.{Op, create, step, run, run_induction}

-- A place that holds no session of the user.
abbrev pub is_foreign : String → Option Session → Bool
is_foreign user none = true
is_foreign user (some s) = not (s.user_id == user)

abbrev IsOut : String → SessionManager → Type 0
IsOut user m = (k : String) → is_foreign user (Dict.get m.sessions k) ≡ true

-- The call does not log the user in.
abbrev pub IsNoLogin : String → Op → Type 0
IsNoLogin user (create _ (some u) _) = (u.id == user) ≡ false
IsNoLogin user _ = Unit

put-foreign :
    (user j k : String) (s : Session) (d : Dict Session)
    → (s.user_id == user) ≡ false
    → is_foreign user (Dict.get d k) ≡ true
    → is_foreign user (Dict.get (Dict.put d j s) k) ≡ true
put-foreign user j k s d n h = ground (arith, get-put d j k s)

create-IsOut :
    (user : String) (bytes : Option (List ℕ)) (u : Option User) (now : Time) (m : SessionManager)
    → IsNoLogin user (create bytes u now)
    → IsOut user m
    → IsOut user (create_session bytes u now m).1
unfolding create_session
create-IsOut user none u now m n h k = h k
create-IsOut user (some bytes) none now m n h k = h k
create-IsOut user (some bytes) (some u) now m n h k =
    put-foreign user (base64 bytes) k _ m.sessions n (h k)

-- A session that is read is one of those that are held.
held_foreign :
    (user id : String) (m : SessionManager) {s : Session}
    → IsOut user m
    → Dict.get m.sessions id ≡ some s
    → (s.user_id == user) ≡ false
held_foreign user id m h e = ground (arith, h id, e)

-- What holds of the state that a call is known to leave holds after the call.
keep : (user : String) {o o' : Outcome Session} → o ≡ o' → IsOut user o'.1 → IsOut user o.1
keep user e h = subst (λ (x : Outcome Session). IsOut user x.1) (sym e) h

remove-IsOut :
    (user id : String) (m : SessionManager)
    → IsOut user m
    → IsOut user (record m { sessions = Dict.remove m.sessions id })
remove-IsOut user id m h k = ground (arith, h k, get-remove m.sessions id k)

put-IsOut :
    (user id : String) (s : Session) (m : SessionManager)
    → (s.user_id == user) ≡ false
    → IsOut user m
    → IsOut user (record m { sessions = Dict.put m.sessions id s })
put-IsOut user id s m n h k = put-foreign user id k s m.sessions n (h k)

get-IsOut :
    (user id : String) (now seen : Time) (m : SessionManager)
    → IsOut user m
    → IsOut user (get_session id now seen m).1
get-IsOut user id now seen m h = elim (found id now m) [
  | missing e ↦ keep user (get_missing id now seen m e) h
  | late s e l ↦ keep user (get_late id now seen m e l) (remove-IsOut user id m h)
  | live s e l ↦
      keep user (get_live id now seen m e l)
        (put-IsOut user id (record s { last_seen = seen }) m (held_foreign user id m h e) h)
]

refresh-IsOut :
    (user id : String) (now seen from : Time) (m : SessionManager)
    → IsOut user m
    → IsOut user (refresh_session id now seen from m).1
refresh-IsOut user id now seen from m h = elim (found id now m) [
  | missing e ↦ keep user (refresh_missing id now seen m from e) h
  | late s e l ↦ keep user (refresh_late id now seen m from e l) (remove-IsOut user id m h)
  | live s e l ↦
      let s' : Session = record s { last_seen = seen } in
      let n = held_foreign user id m h e in
      keep user (refresh_live id now seen m from e l) (
        put-IsOut user id (record s' { expires_at = from + m.session_ttl })
          (record m { sessions = Dict.put m.sessions id s' }) n (put-IsOut user id s' m n h))
]

delete_if-IsOut :
    (user : String) (p : String → Session → Bool) (m : SessionManager)
    → IsOut user m
    → IsOut user (record m { sessions = Dict.delete_if p m.sessions })
delete_if-IsOut user p m h k = ground (arith, h k, get-delete_if p m.sessions k)

step-IsOut :
    (user : String) (o : Op) (m : SessionManager)
    → IsNoLogin user o
    → IsOut user m
    → IsOut user (step o m)
unfolding step delete_session delete_user_sessions cleanup_expired_sessions close
step-IsOut user (create bytes u now) m n h = create-IsOut user bytes u now m n h
step-IsOut user (Op.get id now seen) m n h = get-IsOut user id now seen m h
step-IsOut user (Op.refresh id now seen from) m n h = refresh-IsOut user id now seen from m h
step-IsOut user (Op.delete id) m n h = remove-IsOut user id m h
step-IsOut user (Op.delete_user u) m n h = delete_if-IsOut user (λ k s. s.user_id == u) m h
step-IsOut user (Op.tick now) m n h = delete_if-IsOut user (λ k s. ltb s.expires_at now) m h
step-IsOut user Op.close m n h = λ k. rw get-empty refl

delete_user_sessions-IsOut :
    (user : String) (m : SessionManager) → IsOut user (delete_user_sessions user m).1
unfolding delete_user_sessions
delete_user_sessions-IsOut user m k =
    ground (arith, get-delete_if (λ j s. s.user_id == user) m.sessions k)

abbrev as_ok : Session → Result SessionError Session
as_ok s = ok s

read_foreign :
    (user id : String) (now seen : Time) (m : SessionManager) (s : Session)
    → IsOut user m
    → (get_session id now seen m).0 ≡ ok s
    → s.user_id ≢ user
read_foreign user id now seen m s h r = elim (found id now m) [
  | missing e ↦ λ q. cc (get_missing id now seen m e)
  | late x e l ↦ λ q. cc (get_late id now seen m e l)
  | live x e l ↦ λ q.
      let n = held_foreign user id m h e in
      let same : as_ok (record x { last_seen = seen }) ≡ ok s = cc (get_live id now seen m e l) in
      ground (arith, n, same, eq_iff s.user_id user)
]

-- `DeleteUserSessions` logs a user out for good: after it, whatever is called except a
-- `CreateSession` for that user, and whatever the clock says, no ID leads to a session of that user.
pub logout_everywhere :
    (m : SessionManager) (user id : String) (now seen : Time) (ops : List Op) (s : Session)
    → All (IsNoLogin user) ops
    → (get_session id now seen (run ops (delete_user_sessions user m).1)).0 ≡ ok s
    → s.user_id ≢ user
logout_everywhere m user id now seen ops s n r =
    read_foreign user id now seen _ s
      (run_induction {I = IsOut user} {Allowed = IsNoLogin user} (step-IsOut user) ops _ n
        (delete_user_sessions-IsOut user m))
      r
