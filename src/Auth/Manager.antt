-- ===== src/Auth/Manager.antt =====
-- internal/auth/manager.go: the handlers of its routes, over a provider of identities, the store's screen
-- tokens and the store's answers.
pub mod Once
pub mod Runs
pub mod Refused
use Prim.Native.String.{◌++◌ as text_append}
use go_kube_ops_view.Prelude.{
  ℕ, String, ◌≡◌, Bool, true, false, Option, none, some, List, [], ◌∷◌, ◌++◌, Result, ok, err,
  panic, ◌==◌, not, ◌||◌, if◌then◌else◌,
}
use go_kube_ops_view.Json.{Number, natural, negative}
use go_kube_ops_view.Models.{Time}
use go_kube_ops_view.Auth.Sessions
use go_kube_ops_view.Auth.Sessions.{
  User, Session, SessionManager, create_session, delete_session, forward, new_session_manager, day,
}
use go_kube_ops_view.Auth.Oauth.{
  AuthError, Provider, OauthManager, new_oauth_manager, get_auth_url, exchange_code_for_token,
  get_user_info,
}
use go_kube_ops_view.Auth.Middleware.{
  Request, Reply, json, redirect, set_cookie, session_cookie_name, is_api_request,
}

abbrev pub error_reply : ℕ → String → String → List Reply
error_reply n m c = json n (("error", m) ∷ ("code", c) ∷ []) ∷ []

-- The readings of the clock and the random bytes of one callback.
pub record Instants : Type 0 where
  pub checked : Time
  pub bytes : Option (List ℕ)
  pub created : Time

module _ (net : Provider) where
  pub record Manager : Type 0 where
    pub enabled : Bool
    pub screen_tokens : Bool
    pub oauth : OauthManager
    pub sessions : SessionManager
    pub world : net.World

  -- The manager of a configuration; the provider's credentials are in `net`.
  abbrev pub new_manager : Bool → Bool → net.World → Manager
  new_manager enabled tokens w = record {
    enabled = enabled;
    screen_tokens = tokens;
    oauth = new_oauth_manager;
    sessions = new_session_manager (forward day);
    world = w;
  }

  abbrev pub return_cookie : String → String
  return_cookie state = text_append "oauth_return_url_" (net.query_escape state)

  unfoldable pub handle_login :
      Request → Option (List ℕ) → Time → Time → Manager → List Reply × Manager
  handle_login r bytes now later m =
      let return_url = if r.query "return_url" == "" then "/" else r.query "return_url" in
      let (started, o) = get_auth_url net bytes now later m.oauth in
      if not m.enabled
      then (json 501 (("error", "authentication is not enabled") ∷ []) ∷ [], m)
      else elim started [
        | ok (url, state) ↦ (
          set_cookie (return_cookie state) return_url (natural 600) ∷ redirect 302 url ∷ [],
          record m { oauth = o },
        )
        | _ ↦ (error_reply 500 "failed to generate auth URL" "OAUTH_ERROR", record m { oauth = o })
      ]

  -- The cookies and the redirect of a sign-in that succeeded.
  unfoldable pub signed_in : Request → String → Session → List Reply
  signed_in r state s =
      let wanted : String = elim (r.cookie (return_cookie state)) [ none ↦ "" | some url ↦ url ] in
      set_cookie session_cookie_name s.id (natural 86400)
      ∷ set_cookie (return_cookie state) "" (negative 0)
      ∷ redirect 302 (if wanted == "" then "/" else wanted)
      ∷ []

  -- What follows once the code was exchanged.
  unfoldable pub sign_in : Request → String → Instants → net.Token → Manager → List Reply × Manager
  sign_in r state t token m =
      let (user, w) = get_user_info net token m.oauth m.world in
      let asked : Manager = record m { world = w } in
      elim user [
        | ok u ↦
            let (created, sm) = create_session t.bytes (some u) t.created m.sessions in
            elim created [
              | ok s ↦ (signed_in r state s, record asked { sessions = sm })
              | _ ↦ (
                error_reply 500 "failed to create session" "SESSION_NOT_FOUND",
                record asked { sessions = sm },
              )
            ]
        | _ ↦ (error_reply 500 "failed to get user info" "OAUTH_ERROR", asked)
      ]

  -- A callback from the exchange of its code on.
  unfoldable pub complete_callback : Request → Instants → Manager → List Reply × Manager
  complete_callback r t m =
      let (token, o, w) =
        exchange_code_for_token net (r.query "code") (r.query "state") t.checked
          (m.oauth, m.world) in
      let exchanged : Manager = record m { oauth = o; world = w } in
      elim token [
        | ok tok ↦ sign_in r (r.query "state") t tok exchanged
        | _ ↦ (error_reply 500 "failed to exchange code for token" "OAUTH_ERROR", exchanged)
      ]

  unfoldable pub handle_callback : Request → Instants → Manager → List Reply × Manager
  handle_callback r t m =
      if not m.enabled
      then (json 501 (("error", "authentication is not enabled") ∷ []) ∷ [], m)
      else if not (r.query "error" == "")
      then (error_reply 400 (text_append "OAuth error: " (r.query "error")) "OAUTH_ERROR", m)
      else if r.query "code" == "" || r.query "state" == ""
      then (error_reply 400 "missing code or state parameter" "OAUTH_ERROR", m)
      else complete_callback r t m

  unfoldable pub handle_logout : Request → Manager → List Reply × Manager
  handle_logout r m =
      let left : SessionManager = elim (r.cookie session_cookie_name) [
        | none ↦ m.sessions
        | some id ↦ if id == "" then m.sessions else (delete_session id m.sessions).1
      ] in
      let answer =
        if is_api_request r
        then json 200 (("message", "logged out successfully") ∷ [])
        else redirect 302 "/" in
      if not m.enabled
      then (json 200 (("message", "logged out (authentication was not enabled)") ∷ []) ∷ [], m)
      else (
        set_cookie session_cookie_name "" (negative 0) ∷ answer ∷ [],
        record m { sessions = left },
      )

  -- Over what the store's `CreateScreenToken` gives; `none` is an error.
  unfoldable pub handle_create_screen_token : Option String → Manager → List Reply
  handle_create_screen_token created m =
      if not m.screen_tokens
      then json 501 (("error", "screen tokens are not enabled") ∷ []) ∷ []
      else elim created [
        | none ↦ error_reply 500 "failed to create screen token" "TOKEN_INVALID"
        | some token ↦ json 200 (("token", token) ∷ []) ∷ []
      ]

  -- Over whether the store's `DeleteScreenToken` fails.
  unfoldable pub handle_delete_screen_token : String → Bool → Manager → List Reply
  handle_delete_screen_token token fails m =
      if not m.screen_tokens
      then json 501 (("error", "screen tokens are not enabled") ∷ []) ∷ []
      else if token == ""
      then json 400 (("error", "token parameter is required") ∷ []) ∷ []
      else if fails
      then error_reply 500 "failed to delete screen token" "TOKEN_INVALID"
      else json 200 (("message", "screen token deleted successfully") ∷ []) ∷ []

  unfoldable pub close : Manager → Manager
  close m = record m { sessions = (Sessions.close m.sessions).1 }
