-- ===== src/Tests/AuthRoutes.antt =====
-- A sign-in, a replay of its callback and a logout.
use go_kube_ops_view.Prelude.{
  ℕ, ◌≡◌, refl, true, false, none, some, [], ◌∷◌, ◌==◌, not, ◌||◌, if◌then◌else◌,
}
use go_kube_ops_view.Json.{str}
use go_kube_ops_view.Dict
use go_kube_ops_view.Config.Texts.{split_at}
use go_kube_ops_view.Auth.Sessions.{
  base64, create_session, delete_session, get_session, new_session_manager,
}
use go_kube_ops_view.Auth.Oauth.{
  Provider, not_json, get_auth_url, exchange_code_for_token, get_user_info, parse_id_token,
  validate_state, cleanup_expired_states,
}
use go_kube_ops_view.Auth.Middleware.{
  Request, require_auth, get_session_from_request, stop, handle_auth_error, auth_error_of,
  session_id, bears_token,
}
use go_kube_ops_view.Auth.Middleware.Required.{passes, bears_session, require_auth_lem}
use go_kube_ops_view.Auth.Sessions.{session_not_found}
use go_kube_ops_view.Auth.Manager.{
  Manager, Instants, new_manager, handle_login, handle_callback, handle_logout, sign_in,
  complete_callback,
}
use go_kube_ops_view.Auth.Manager.Runs.{login, callback, middleware_of, run, step}
use go_kube_ops_view.Auth.Manager.Once.{callback_once}
use go_kube_ops_view.Auth.Manager.Refused.{logged_out_refused}
use go_kube_ops_view.Tests.Auth.{bytes}

-- A provider that knows one user; its world counts the codes it was asked about.
abbrev provider : Provider
provider = record {
  World = ℕ;
  Token = Unit {0};
  exchange = λ code w. (some tt, 1);
  id_token = λ t. some "h.p.s";
  fetch = λ url t w. (not_json, w);
  decode = λ s. some s;
  unmarshal = λ s. some (some (Dict.put Dict.empty "sub" (str "alice")));
  decimal = λ n. "n";
  auth_code_url = λ s. s;
  query_escape = λ s. s;
}

abbrev plain : Request
plain = record {
  cookie = λ n. none;
  header = λ n. "";
  query = λ n. "";
  post_form = λ n. "";
  path = "/";
  url = "/";
}

abbrev back : Request
back = record plain {
  query = λ n. if n == "code" then "xyz" else if n == "state" then "TWFu" else "";
}

abbrev bearing : Request
bearing = record plain { cookie = λ n. some "TWE=" }

abbrev instants : Instants
instants = record { checked = 20; bytes = some (77 ∷ 97 ∷ []); created = 21 }

abbrev started : Manager provider
started = (handle_login provider plain (some bytes) 10 11 (new_manager provider true false 0)).1

abbrev signed : Manager provider
signed = (handle_callback provider back instants started).1

session_made :
    passes
      (require_auth (middleware_of provider signed) (λ t. false) bearing 30 30 signed.sessions).0
    ≡ true
unfolding handle_login handle_callback complete_callback sign_in get_auth_url base64
    exchange_code_for_token get_user_info parse_id_token validate_state cleanup_expired_states
    create_session require_auth Dict.get Dict.put Dict.remove Dict.delete_if session_id split_at
    get_session_from_request get_session new_session_manager
session_made = refl

callback_once_example :
    let m' = run provider (login plain none 22 23 ∷ []) signed in
    (handle_callback provider back instants m').1 ≡ m'
unfolding handle_login get_auth_url base64 validate_state cleanup_expired_states Dict.get Dict.put
    Dict.delete_if
callback_once_example =
    callback_once provider back back instants instants (login plain none 22 23 ∷ []) started refl
      refl (tt, tt) refl

logged_out_refused_example :
    let m' =
      run provider
        (callback back (record instants { bytes = none }) ∷ [])
        (handle_logout provider bearing signed).1 in
    require_auth (middleware_of provider m') (λ t. false) bearing 40 40 m'.sessions
    ≡ (stop (handle_auth_error bearing (auth_error_of session_not_found)), m'.sessions)
unfolding handle_login handle_callback complete_callback sign_in get_auth_url base64
    exchange_code_for_token get_user_info parse_id_token validate_state cleanup_expired_states
    create_session session_id run step handle_logout delete_session Dict.get Dict.put Dict.remove
    Dict.delete_if split_at
logged_out_refused_example =
    logged_out_refused provider bearing bearing "TWE="
      (callback back (record instants { bytes = none }) ∷ []) (λ t. false) 40 40 signed refl refl
      refl (tt, tt) refl refl

require_auth_lem_example :
    passes
      (require_auth (middleware_of provider signed) (λ t. false) bearing 30 30 signed.sessions).0
    ≡ (not (middleware_of provider signed).enabled
        || bears_token (middleware_of provider signed) (λ t. false) bearing
        || bears_session bearing 30 signed.sessions)
require_auth_lem_example =
    require_auth_lem (middleware_of provider signed) (λ t. false) bearing 30 30 signed.sessions
