-- ===== src/Auth/Sessions/Calls.antt =====
-- `GetSession` and `RefreshSession` of internal/auth/session.go, case by case.
use go_kube_ops_view.Prelude.{
  ◌+◌, String, ◌≡◌, refl, true, false, none, some, ok, err, Option-cases, Bool-cases, inl, inr, ltb,
  arith,
}
use go_kube_ops_view.Dict
use go_kube_ops_view.Dict.{Dict}
use go_kube_ops_view.Models.{Time}
use go_kube_ops_view.Auth.Sessions.{
  Session, SessionManager, session_not_found, session_expired, get_session, refresh_session,
  delete_session,
}

-- The ID is unknown, or its session is late, or live.
pub data Found (id : String) (now : Time) (m : SessionManager) : Type 0 where
  missing : Dict.get m.sessions id ≡ none → Found id now m
  late :
      (s : Session) → Dict.get m.sessions id ≡ some s → ltb s.expires_at now ≡ true → Found id now m
  live :
      (s : Session)
      → Dict.get m.sessions id ≡ some s
      → ltb s.expires_at now ≡ false
      → Found id now m

pub found : (id : String) (now : Time) (m : SessionManager) → Found id now m
found id now m = elim (Option-cases (Dict.get m.sessions id)) [
  | inl e ↦ missing e
  | inr (s, e) ↦ elim (Bool-cases (ltb s.expires_at now)) [
    | inl l ↦ late s e l
    | inr l ↦ live s e l
  ]
]

module _ (id : String) (now seen : Time) (m : SessionManager) where
  pub get_missing :
      Dict.get m.sessions id ≡ none → get_session id now seen m ≡ (err session_not_found, m)
  unfolding get_session
  get_missing e = rw (e, get_session) refl

  pub get_late :
      {s : Session}
      → Dict.get m.sessions id ≡ some s
      → ltb s.expires_at now ≡ true
      → get_session id now seen m
        ≡ (err session_expired, record m { sessions = Dict.remove m.sessions id })
  unfolding get_session delete_session
  get_late e l = rw (e, get_session) (ground (arith, l))

  pub get_live :
      {s : Session}
      → Dict.get m.sessions id ≡ some s
      → ltb s.expires_at now ≡ false
      → get_session id now seen m ≡ (
        ok (record s { last_seen = seen }),
        record m { sessions = Dict.put m.sessions id (record s { last_seen = seen }) },
      )
  unfolding get_session
  get_live e l = rw (e, get_session) (ground (arith, l))

  module _ (from : Time) where
    pub refresh_missing :
        Dict.get m.sessions id ≡ none
        → refresh_session id now seen from m ≡ (err session_not_found, m)
    unfolding refresh_session
    refresh_missing e = ground (arith, get_missing e)

    pub refresh_late :
        {s : Session}
        → Dict.get m.sessions id ≡ some s
        → ltb s.expires_at now ≡ true
        → refresh_session id now seen from m
          ≡ (err session_expired, record m { sessions = Dict.remove m.sessions id })
    unfolding refresh_session
    refresh_late e l = ground (arith, get_late e l)

    pub refresh_live :
        {s : Session}
        → Dict.get m.sessions id ≡ some s
        → ltb s.expires_at now ≡ false
        → let s' : Session = record s { last_seen = seen } in
          let s'' : Session = record s' { expires_at = from + m.session_ttl } in
          refresh_session id now seen from m
          ≡ (ok s'', record m { sessions = Dict.put (Dict.put m.sessions id s') id s'' })
    unfolding refresh_session
    refresh_live e l = ground (arith, get_live e l)
