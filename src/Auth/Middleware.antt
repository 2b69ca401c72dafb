-- ===== src/Auth/Middleware.antt =====
-- internal/auth/middleware.go: what a request must bear to reach the handlers behind it. What the
-- middleware does with a `gin.Context` is a verdict: the calls that answer, or the next handler.
pub mod Required
use Prim.Native.String.{◌++◌ as text_append}
use Prim.Native.Char.{code}
use go_kube_ops_view.Prelude.{
  ℕ, String, ◌≡◌, Bool, true, false, Option, none, some, List, [], ◌∷◌, Result, ok, err, panic,
  ◌==◌, not, ◌||◌, ◌&&◌, nat_eq, if◌then◌else◌,
}
use go_kube_ops_view.Json.{Number}
use go_kube_ops_view.Models.{Time}
use go_kube_ops_view.Errors.Handler.{contains}
use go_kube_ops_view.Auth.Sessions.{
  Session, SessionManager, SessionError, session_not_found, session_expired, id_generation_failed,
  get_session,
}
use go_kube_ops_view.Auth.Oauth.{AuthError}

-- What is read of a request; a text that is not there is empty, a cookie `none`.
pub record Request : Type 0 where
  pub cookie : String → Option String
  pub header : String → String
  pub query : String → String
  pub post_form : String → String
  pub path : String
  pub url : String

-- A call of the `gin.Context` that answers; the number of a cookie is its age.
pub data Reply : Type 0 where
  json : ℕ → List (String × String) → Reply
  redirect : ℕ → String → Reply
  set_cookie : String → String → Number → Reply

-- `pass` is `c.Next`, with the session that is in the context then.
pub data Verdict : Type 0 where
  pass : Option Session → Verdict
  stop : List Reply → Verdict

pub record Middleware : Type 0 where
  pub enabled : Bool
  pub screen_tokens : Bool

abbrev pub session_cookie_name : String
session_cookie_name = "kube-ops-view-session"

-- The text after a prefix that it has.
unfoldable pub strip_prefix : String → String → Option String
strip_prefix String.[] s = some s
strip_prefix (String.◌∷◌ c p) String.[] = none
strip_prefix (String.◌∷◌ c p) (String.◌∷◌ d s) =
    let rest = strip_prefix p s in if nat_eq (code c) (code d) then rest else none

abbrev has_prefix : String → String → Bool
has_prefix p s = elim (strip_prefix p s) [ none ↦ false | some _ ↦ true ]

abbrev unauthorized : String → AuthError
unauthorized m = record { code = "UNAUTHORIZED"; message = m }

unfoldable pub auth_error_of : SessionError → AuthError
auth_error_of session_not_found = record {
  code = "SESSION_NOT_FOUND";
  message = "session not found";
}
auth_error_of session_expired = record { code = "SESSION_EXPIRED"; message = "session expired" }
auth_error_of id_generation_failed = record {
  code = "SESSION_NOT_FOUND";
  message = "failed to generate session ID";
}

-- The session ID that a request bears: the cookie's, or that of the header if there is no cookie.
unfoldable pub session_id : Request → Result AuthError String
session_id r = elim (r.cookie session_cookie_name) [
  | some id ↦ if id == "" then err (unauthorized "no session ID provided") else ok id
  | none ↦ elim (strip_prefix "Bearer " (r.header "Authorization")) [
    | none ↦ err (unauthorized "no session found")
    | some id ↦ if id == "" then err (unauthorized "no session ID provided") else ok id
  ]
]

unfoldable pub get_session_from_request :
    Request → Time → Time → SessionManager → Result AuthError Session × SessionManager
get_session_from_request r now seen m = elim (session_id r) [
  | panic ↦ (panic, m)
  | err e ↦ (err e, m)
  | ok id ↦
      let (got, m') = get_session id now seen m in
      elim got [ panic ↦ (panic, m') | err e ↦ (err (auth_error_of e), m') | ok s ↦ (ok s, m') ]
]

-- The header's, the query's or the form's, the first that is not empty.
unfoldable pub get_screen_token : Request → String
get_screen_token r =
    if not (r.header "X-Screen-Token" == "")
    then r.header "X-Screen-Token"
    else if not (r.query "screen_token" == "")
    then r.query "screen_token"
    else r.post_form "screen_token"

unfoldable pub is_api_request : Request → Bool
is_api_request r =
    contains (r.header "Content-Type") ("application/json" ∷ [])
    || contains (r.header "Accept") ("application/json" ∷ [])
    || has_prefix "/api/" r.path
    || r.header "X-Requested-With" == "XMLHttpRequest"

unfoldable pub handle_auth_error : Request → AuthError → List Reply
handle_auth_error r e =
    let back =
      if not (r.url == "") && not (r.url == "/") then text_append "?return_url=" r.url else "" in
    if is_api_request r
    then json 401 (("error", e.message) ∷ ("code", e.code) ∷ []) ∷ []
    else redirect 302 (text_append "/auth/login" back) ∷ []

-- Whether the store's `ValidateScreenToken` accepts a token is an argument.
module _ (m : Middleware) (validate : String → Bool) where
  -- A token is asked for, borne and valid.
  abbrev pub bears_token : Request → Bool
  bears_token r = m.screen_tokens && not (get_screen_token r == "") && validate (get_screen_token r)

  unfoldable pub require_auth : Request → Time → Time → SessionManager → Verdict × SessionManager
  require_auth r now seen sm =
      let (got, sm') = get_session_from_request r now seen sm in
      if not m.enabled
      then (pass none, sm)
      else if bears_token r
      then (pass none, sm)
      else elim got [
        | ok s ↦ (pass (some s), sm')
        | err e ↦ (stop (handle_auth_error r e), sm')
        | panic ↦ (stop [], sm')
      ]

  unfoldable pub optional_auth : Request → Time → Time → SessionManager → Verdict × SessionManager
  optional_auth r now seen sm =
      let (got, sm') = get_session_from_request r now seen sm in
      if not m.enabled
      then (pass none, sm)
      else elim got [ ok s ↦ (pass (some s), sm') | _ ↦ (pass none, sm') ]

  unfoldable pub screen_token_auth : Request → Verdict
  screen_token_auth r =
      if not m.enabled || not m.screen_tokens
      then pass none
      else if get_screen_token r == ""
      then stop (json 401 (("error", "screen token required") ∷ ("code", "UNAUTHORIZED") ∷ []) ∷ [])
      else if validate (get_screen_token r)
      then pass none
      else stop (json 401 (("error", "invalid screen token") ∷ ("code", "TOKEN_INVALID") ∷ []) ∷ [])
