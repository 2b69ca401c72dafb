-- ===== src/Auth/Sessions/Lifetime.antt =====
-- internal/auth/session.go: how long a session can be used.
use go_kube_ops_view.Prelude.{
  ℕ, ◌+◌, ◌≤◌, String, ◌≡◌, ◌⊎◌, refl, Bool, false, Option, none, some, List, arith, ◌==◌, ok, err,
  All, Bool-cases, subst, sym, inl, inr, eq_iff, eq_refl, ltb, if◌then◌else◌,
}
use go_kube_ops_view.Dict
use go_kube_ops_view.Dict.{Dict, get-put, get-remove, get-delete_if}
use go_kube_ops_view.Models.{Time}
use go_kube_ops_view.Auth.Sessions.{
  Outcome, User, Session, SessionManager, base64, session_expired, create_session, get_session,
  refresh_session, delete_session, delete_user_sessions, cleanup_expired_sessions,
}
use go_kube_ops_view.Auth.Sessions.Calls.{
  found, missing, late, live, get_missing, get_late, get_live, refresh_missing, refresh_late,
  refresh_live,
}
use go_kube_ops_view.Auth.Sessions.Runs.{
  Op, create, get, refresh, delete, delete_user, tick, close, step, run, run_induction,
}

-- The call leaves the session alone: it does not make, refresh or delete a session of this ID,
-- delete the user's, or find the deadline passed.
abbrev pub LeavesAlone : Session → Op → Type 0
LeavesAlone s (create none _ _) = Unit
LeavesAlone s (create (some bytes) _ _) = (base64 bytes == s.id) ≡ false
LeavesAlone s (get id now _) = ((id == s.id) ≡ false) ⊎ (now ≤ s.expires_at)
LeavesAlone s (refresh id _ _ _) = (id == s.id) ≡ false
LeavesAlone s (delete id) = (id == s.id) ≡ false
LeavesAlone s (delete_user user) = (s.user_id == user) ≡ false
LeavesAlone s (tick now) = now ≤ s.expires_at
LeavesAlone s close = ⊥

module _ (s : Session) where
  abbrev seen_at : Time → Session
  seen_at t = record s { last_seen = t }

  abbrev IsHeld : SessionManager → Type 0
  IsHeld m = (t : Time) × (Dict.get m.sessions s.id ≡ some (seen_at t))

  create-IsHeld :
      (bytes : Option (List ℕ)) (u : Option User) (now : Time) (m : SessionManager)
      → LeavesAlone s (create bytes u now)
      → IsHeld m
      → IsHeld (create_session bytes u now m).1
  unfolding create_session
  create-IsHeld none u now m n h = h
  create-IsHeld (some bytes) none now m n h = h
  create-IsHeld (some bytes) (some u) now m n h = (h.0, rw get-put (rw n h.1))

  keep : {o o' : Outcome Session} → o ≡ o' → IsHeld o'.1 → IsHeld o.1
  keep e h = subst (λ (x : Outcome Session). IsHeld x.1) (sym e) h

  remove-IsHeld :
      (id : String) (m : SessionManager)
      → (id == s.id) ≡ false
      → IsHeld m
      → IsHeld (record m { sessions = Dict.remove m.sessions id })
  remove-IsHeld id m n h = (h.0, rw get-remove (rw n h.1))

  put-IsHeld :
      (id : String) (x : Session) (m : SessionManager)
      → (id == s.id) ≡ false
      → IsHeld m
      → IsHeld (record m { sessions = Dict.put m.sessions id x })
  put-IsHeld id x m n h = (h.0, rw get-put (rw n h.1))

  -- Reading another session, before or after its deadline.
  get_other-IsHeld :
      (id : String) (now seen : Time) (m : SessionManager)
      → (id == s.id) ≡ false
      → IsHeld m
      → IsHeld (get_session id now seen m).1
  get_other-IsHeld id now seen m n h = elim (found id now m) [
    | missing e ↦ keep (get_missing id now seen m e) h
    | late x e l ↦ keep (get_late id now seen m e l) (remove-IsHeld id m n h)
    | live x e l ↦
        keep (get_live id now seen m e l) (put-IsHeld id (record x { last_seen = seen }) m n h)
  ]

  read_own :
      (now seen : Time) (m : SessionManager)
      → IsHeld m
      → now ≤ s.expires_at
      → get_session s.id now seen m
        ≡ (ok (seen_at seen), record m { sessions = Dict.put m.sessions s.id (seen_at seen) })
  read_own now seen m h l = get_live s.id now seen m h.1 (ground arith)

  get_own-IsHeld :
      (now seen : Time) (m : SessionManager)
      → IsHeld m
      → now ≤ s.expires_at
      → IsHeld (get_session s.id now seen m).1
  get_own-IsHeld now seen m h l =
      keep (read_own now seen m h l) (seen, rw get-put (rw eq_refl refl))

  get-IsHeld :
      (id : String) (now seen : Time) (m : SessionManager)
      → LeavesAlone s (get id now seen)
      → IsHeld m
      → IsHeld (get_session id now seen m).1
  get-IsHeld id now seen m n h = elim (Bool-cases (id == s.id)) [
    | inr o ↦ get_other-IsHeld id now seen m o h
    | inl o ↦ elim n [
      | inl n' ↦ get_other-IsHeld id now seen m n' h
      | inr l ↦
          subst (λ (i : String). IsHeld (get_session i now seen m).1) (sym ((eq_iff id s.id).0 o))
            (get_own-IsHeld now seen m h l)
    ]
  ]

  refresh-IsHeld :
      (id : String) (now seen from : Time) (m : SessionManager)
      → (id == s.id) ≡ false
      → IsHeld m
      → IsHeld (refresh_session id now seen from m).1
  refresh-IsHeld id now seen from m n h = elim (found id now m) [
    | missing e ↦ keep (refresh_missing id now seen m from e) h
    | late x e l ↦ keep (refresh_late id now seen m from e l) (remove-IsHeld id m n h)
    | live x e l ↦
        let x' : Session = record x { last_seen = seen } in
        keep (refresh_live id now seen m from e l) (
          put-IsHeld id (record x' { expires_at = from + m.session_ttl })
            (record m { sessions = Dict.put m.sessions id x' }) n (put-IsHeld id x' m n h))
  ]

  delete_if-IsHeld :
      (p : String → Session → Bool) (m : SessionManager)
      → ((t : Time) → p s.id (seen_at t) ≡ false)
      → IsHeld m
      → IsHeld (record m { sessions = Dict.delete_if p m.sessions })
  delete_if-IsHeld p m n h = (h.0, rw (get-delete_if, h.1) (rw (n h.0) refl))

  step-IsHeld : (o : Op) (m : SessionManager) → LeavesAlone s o → IsHeld m → IsHeld (step o m)
  unfolding step delete_session delete_user_sessions cleanup_expired_sessions
  step-IsHeld (create bytes u now) m n h = create-IsHeld bytes u now m n h
  step-IsHeld (get id now seen) m n h = get-IsHeld id now seen m n h
  step-IsHeld (refresh id now seen from) m n h = refresh-IsHeld id now seen from m n h
  step-IsHeld (delete id) m n h = remove-IsHeld id m n h
  step-IsHeld (delete_user u) m n h = delete_if-IsHeld (λ k x. x.user_id == u) m (λ t. n) h
  step-IsHeld (tick now) m n h =
      delete_if-IsHeld (λ k x. ltb x.expires_at now) m (λ t. ground (arith, n)) h
  step-IsHeld close m n h = absurd n

  read_held :
      (now seen : Time) (m : SessionManager)
      → IsHeld m
      → (get_session s.id now seen m).0
        ≡ (if ltb s.expires_at now then err session_expired else ok (seen_at seen))
  read_held now seen m h = elim (Bool-cases (ltb s.expires_at now)) [
    | inl l ↦ cc (get_late s.id now seen m h.1 l, l)
    | inr l ↦ cc (get_live s.id now seen m h.1 l, l)
  ]

-- The session that `CreateSession` makes.
abbrev pub new_session : List ℕ → User → Time → SessionManager → Session
new_session bytes user now m = record {
  id = base64 bytes;
  user_id = user.id;
  user = user;
  created_at = now;
  expires_at = now + m.session_ttl;
  last_seen = now;
}

-- A session that `CreateSession` returned is found under its ID, with its user and its deadline,
-- until the TTL has passed, and reported as expired after that: whatever is called in between that
-- leaves it alone, readings and clean-ups before the deadline included.
pub session_lifetime :
    (m : SessionManager) (bytes : List ℕ) (user : User) (created now seen : Time) (ops : List Op)
    → All (LeavesAlone (new_session bytes user created m)) ops
    → let s = new_session bytes user created m in
      let (r, m') = create_session (some bytes) (some user) created m in
      (r ≡ ok s)
      × ((get_session s.id now seen (run ops m')).0 ≡ (
          if ltb (created + m.session_ttl) now
          then err session_expired
          else ok (record s { last_seen = seen })))
unfolding create_session
session_lifetime m bytes user created now seen ops n =
    let s = new_session bytes user created m in
    (
      refl,
      read_held s now seen _ (
          run_induction {I = IsHeld s} {Allowed = LeavesAlone s} (step-IsHeld s) ops _ n
            (created, rw get-put (rw eq_refl refl))),
    )
