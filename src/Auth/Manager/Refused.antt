-- ===== src/Auth/Manager/Refused.antt =====
-- internal/auth: a session's ID after `handleLogout`.
use go_kube_ops_view.Prelude.{
  ℕ, String, ◌≡◌, refl, ap, ◌∙◌, Bool, true, false, Option, none, some, List, [], ◌∷◌, Result, ok,
  err, All, ◌==◌, eq_refl, eq_iff, ltb, arith, Bool-cases, Option-cases, Result-split, inl, inr,
}
use go_kube_ops_view.Dict
use go_kube_ops_view.Dict.{Dict, get-put, get-remove, get-delete_if}
use go_kube_ops_view.Models.{Time}
use go_kube_ops_view.Auth.Sessions.{
  SessionManager, Session, SessionError, User, create_session, delete_session, base64, get_session,
  session_not_found, cleanup_expired_sessions,
}
use go_kube_ops_view.Auth.Sessions.Calls.{
  found, missing, late, live, get_missing, get_late, get_live,
}
use go_kube_ops_view.Auth.Oauth.{Provider, exchange_code_for_token, get_user_info}
use go_kube_ops_view.Auth.Middleware.{
  Request, Reply, stop, session_id, session_cookie_name, bears_token, get_session_from_request,
  require_auth, handle_auth_error, auth_error_of,
}
use go_kube_ops_view.Auth.Manager.{
  Manager, Instants, handle_login, handle_callback, handle_logout, sign_in, complete_callback,
}
use go_kube_ops_view.Auth.Manager.Runs.{
  Visit, login, callback, logout, guarded, cleanup, step, run, IsOtherSession, middleware_of,
  IsOther,
}
use go_kube_ops_view.Auth.Manager.Once.{is_whole, callback_whole, callback_partial}

-- What holds of a session's place.
abbrev pub session_at : String → SessionManager → Option Session
session_at id m = Dict.get m.sessions id

create_keeps_gone :
    (id : String) (bytes : Option (List ℕ)) (u : User) (now : Time) (m : SessionManager)
    → IsOther id bytes
    → session_at id m ≡ none
    → session_at id (create_session bytes (some u) now m).1 ≡ none
unfolding create_session
create_keeps_gone id none u now m n h = h
create_keeps_gone id (some bytes) u now m n h = get-put m.sessions (base64 bytes) id _ ∙ rw n h

get_keeps_gone :
    (id other : String) (now seen : Time) (m : SessionManager)
    → session_at id m ≡ none
    → session_at id (get_session other now seen m).1 ≡ none
get_keeps_gone id other now seen m h = elim (found other now m) [
  | missing e ↦
      ap (λ (o : Result SessionError Session × SessionManager). session_at id o.1)
        (get_missing other now seen m e)
      ∙ h
  | late s e l ↦
      ap (λ (o : Result SessionError Session × SessionManager). session_at id o.1)
        (get_late other now seen m e l)
      ∙ ground (arith, h, get-remove m.sessions other id)
  | live s e l ↦
      ap (λ (o : Result SessionError Session × SessionManager). session_at id o.1)
        (get_live other now seen m e l)
      ∙ ground (
        arith,
        h,
        e,
        eq_iff other id,
        get-put m.sessions other id (record s { last_seen = seen }),
      )
]

request_keeps_gone :
    (id : String) (r : Request) (now seen : Time) (m : SessionManager)
    → session_at id m ≡ none
    → session_at id (get_session_from_request r now seen m).1 ≡ none
unfolding get_session_from_request
request_keeps_gone id r now seen m h = elim (Result-split (session_id r)) [
  | inl (other, q) ↦ let kept = get_keeps_gone id other now seen m h in ground (arith, q, kept)
  | inr (inl (e, q)) ↦ ground (arith, q, h)
  | inr (inr q) ↦ ground (arith, q, h)
]

request_missing :
    (r : Request) (id : String) (now seen : Time) (m : SessionManager)
    → session_id r ≡ ok id
    → session_at id m ≡ none
    → get_session_from_request r now seen m ≡ (err (auth_error_of session_not_found), m)
unfolding get_session_from_request
request_missing r id now seen m q h = let e = get_missing id now seen m h in ground (arith, q, e)

module _ (net : Provider) where
  step-enabled : (v : Visit) (m : Manager net) → (step net v m).enabled ≡ m.enabled
  unfolding step handle_login handle_callback complete_callback handle_logout sign_in
  step-enabled (login r bytes now later) m = ground arith
  step-enabled (callback r t) m = ground arith
  step-enabled (logout r) m = ground arith
  step-enabled (guarded valid r now seen) m = refl
  step-enabled (cleanup now) m = refl

  run-enabled : (vs : List Visit) (m : Manager net) → (run net vs m).enabled ≡ m.enabled
  unfolding run
  run-enabled [] m = refl
  run-enabled (v ∷ vs) m = run-enabled vs (step net v m) ∙ step-enabled v m

  sign_in_keeps_gone :
      (id : String) (r : Request) (state : String) (t : Instants) (token : net.Token)
      (m : Manager net)
      → IsOther id t.bytes
      → session_at id m.sessions ≡ none
      → session_at id (sign_in net r state t token m).1.sessions ≡ none
  unfolding sign_in
  sign_in_keeps_gone id r state t token m n h =
      elim (Result-split (get_user_info net token m.oauth m.world).0) [
        | inl (u, q) ↦
            let kept = create_keeps_gone id t.bytes u t.created m.sessions n h in
            ground (arith, q, kept)
        | inr (inl (e, q)) ↦ ground (arith, q, h)
        | inr (inr q) ↦ ground (arith, q, h)
      ]

  complete_keeps_gone :
      (id : String) (r : Request) (t : Instants) (m : Manager net)
      → IsOther id t.bytes
      → session_at id m.sessions ≡ none
      → session_at id (complete_callback net r t m).1.sessions ≡ none
  unfolding complete_callback
  complete_keeps_gone id r t m n h =
      let o =
        exchange_code_for_token net (r.query "code") (r.query "state") t.checked
          (m.oauth, m.world) in
      elim (Result-split o.0) [
        | inl (tok, q) ↦
            rw (q, complete_callback)
              (sign_in_keeps_gone id r (r.query "state") t tok
                (record m { oauth = o.1; world = o.2 }) n h)
        | inr (inl (e, q)) ↦ rw (q, complete_callback) h
        | inr (inr q) ↦ rw (q, complete_callback) h
      ]

  callback_keeps_gone :
      (id : String) (r : Request) (t : Instants) (m : Manager net)
      → IsOther id t.bytes
      → session_at id m.sessions ≡ none
      → session_at id (handle_callback net r t m).1.sessions ≡ none
  callback_keeps_gone id r t m n h = elim (Bool-cases (is_whole net r m)) [
    | inr w ↦ ap (λ (x : Manager net). session_at id x.sessions) (callback_partial net r t m w) ∙ h
    | inl w ↦
        ap (λ (o : List Reply × Manager net). session_at id o.1.sessions)
          (callback_whole net r t m w)
        ∙ complete_keeps_gone id r t m n h
  ]

  guarded_keeps_gone :
      (id : String) (valid : String → Bool) (r : Request) (now seen : Time) (m : Manager net)
      → session_at id m.sessions ≡ none
      → session_at id (require_auth (middleware_of net m) valid r now seen m.sessions).1 ≡ none
  unfolding require_auth
  guarded_keeps_gone id valid r now seen m h =
      let kept = request_keeps_gone id r now seen m.sessions h in ground (arith, h, kept)

  logout_keeps_gone :
      (id : String) (r : Request) (m : Manager net)
      → session_at id m.sessions ≡ none
      → session_at id (handle_logout net r m).1.sessions ≡ none
  unfolding handle_logout delete_session
  logout_keeps_gone id r m h = elim (Option-cases (r.cookie session_cookie_name)) [
    | inl q ↦ ground (arith, h, q)
    | inr (other, q) ↦ ground (arith, h, q, get-remove m.sessions.sessions other id)
  ]

  step_keeps_gone :
      (id : String) (v : Visit) (m : Manager net)
      → IsOtherSession id v
      → session_at id m.sessions ≡ none
      → session_at id (step net v m).sessions ≡ none
  unfolding step handle_login cleanup_expired_sessions
  step_keeps_gone id (login r bytes now later) m n h = ground (arith, h)
  step_keeps_gone id (callback r t) m n h = callback_keeps_gone id r t m n h
  step_keeps_gone id (logout r) m n h = logout_keeps_gone id r m h
  step_keeps_gone id (guarded valid r now seen) m n h = guarded_keeps_gone id valid r now seen m h
  step_keeps_gone id (cleanup now) m n h =
      get-delete_if (λ k s. ltb s.expires_at now) m.sessions.sessions id ∙ rw h refl

  run_keeps_gone :
      (id : String) (vs : List Visit) (m : Manager net)
      → All (IsOtherSession id) vs
      → session_at id m.sessions ≡ none
      → session_at id (run net vs m).sessions ≡ none
  unfolding run
  run_keeps_gone id [] m n h = h
  run_keeps_gone id (v ∷ vs) m n h =
      run_keeps_gone id vs (step net v m) n.1 (step_keeps_gone id v m n.0 h)

  logged_out :
      (r : Request) (id : String) (m : Manager net)
      → m.enabled ≡ true
      → r.cookie session_cookie_name ≡ some id
      → (id == "") ≡ false
      → session_at id (handle_logout net r m).1.sessions ≡ none
  unfolding handle_logout delete_session
  logged_out r id m on c n =
      ground (arith, on, c, n, get-remove m.sessions.sessions id id, eq_refl id)

  refused :
      (valid : String → Bool) (r : Request) (id : String) (now seen : Time) (m : Manager net)
      → m.enabled ≡ true
      → session_id r ≡ ok id
      → bears_token (middleware_of net m) valid r ≡ false
      → session_at id m.sessions ≡ none
      → require_auth (middleware_of net m) valid r now seen m.sessions
        ≡ (stop (handle_auth_error r (auth_error_of session_not_found)), m.sessions)
  unfolding require_auth
  refused valid r id now seen m on q t h =
      let g = request_missing r id now seen m.sessions q h in ground (arith, on, t, g)

  -- Logging out ends a session for every route that must be authenticated: after a logout with the
  -- session's cookie, whatever is requested in between and however clocks run, a request that bears
  -- the session's ID, by cookie or by header, and no valid screen token is stopped with the error
  -- that there is no such session, unless a sign-in draws the same ID again.
  pub logged_out_refused :
      (r r' : Request) (id : String) (vs : List Visit) (valid : String → Bool) (now seen : Time)
      (m : Manager net)
      → m.enabled ≡ true
      → r.cookie session_cookie_name ≡ some id
      → (id == "") ≡ false
      → All (IsOtherSession id) vs
      → session_id r' ≡ ok id
      → bears_token (middleware_of net (run net vs (handle_logout net r m).1)) valid r' ≡ false
      → let m' = run net vs (handle_logout net r m).1 in
        require_auth (middleware_of net m') valid r' now seen m'.sessions
        ≡ (stop (handle_auth_error r' (auth_error_of session_not_found)), m'.sessions)
  unfolding step
  logged_out_refused r r' id vs valid now seen m on c full n q t =
      let out = handle_logout net r m in
      let still : out.1.enabled ≡ true = step-enabled (logout r) m ∙ on in
      refused valid r' id now seen (run net vs out.1) (run-enabled vs out.1 ∙ still) q t
        (run_keeps_gone id vs out.1 n (logged_out r id m on c full))
