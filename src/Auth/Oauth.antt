-- ===== src/Auth/Oauth.antt =====
-- internal/auth/oauth.go: `OAuthManager`, over a provider of identities (golang.org/x/oauth2 and HTTP).
-- Its calls run one after another.
pub mod Users
use Prim.Native.String.{◌++◌ as text_append}
use go_kube_ops_view.Prelude.{
  ℕ, ◌+◌, ◌*◌, String, Bool, true, false, Option, none, some, List, [], ◌∷◌, Result, ok, err, panic,
  ◌==◌, not, ltb, nat_eq, if◌then◌else◌,
}
use go_kube_ops_view.Dict
use go_kube_ops_view.Dict.{Dict}
use go_kube_ops_view.Json.{Json}
use go_kube_ops_view.Models.{Time, GoMap}
use go_kube_ops_view.Config.Texts.{split_at}
use go_kube_ops_view.Auth.Sessions.{User, base64}
use go_kube_ops_view.Auth.Oauth.Users.{map_user_info}

-- An `AuthError` without its cause.
pub record AuthError : Type 0 where
  pub code : String
  pub message : String

abbrev pub oauth_error : String → AuthError
oauth_error m = record { code = "OAUTH_ERROR"; message = m }

-- What a request for the user's information gives.
pub data Fetched : Type 0 where
  no_answer : Fetched
  bad_status : ℕ → Fetched
  not_json : Fetched
  claims : GoMap Json → Fetched

-- The provider, and the texts of its ID tokens: `unmarshal` decodes base64 and JSON, and gives what
-- failed.
pub record Provider : Type 1 where
  pub World : Type 0
  pub Token : Type 0
  pub exchange : String → World → Option Token × World
  pub id_token : Token → Option String
  pub fetch : String → Token → World → Fetched × World
  pub decode : String → Option String
  pub unmarshal : String → Option (GoMap Json)
  pub decimal : ℕ → String
  pub auth_code_url : String → String
  pub query_escape : String → String

-- What is kept of the states, and where users are asked for.
pub record OauthManager : Type 0 where
  pub state_store : Dict Time
  pub user_info_url : String

abbrev pub new_oauth_manager : OauthManager
new_oauth_manager = record { state_store = Dict.empty; user_info_url = "" }

abbrev pub set_user_info_url : String → OauthManager → OauthManager
set_user_info_url url m = record m { user_info_url = url }

-- now.After(expiry)
unfoldable pub cleanup_expired_states : Time → OauthManager → OauthManager
cleanup_expired_states now m = record m {
  state_store = Dict.delete_if (λ s expiry. ltb expiry now) m.state_store;
}

-- time.Now().Before(expiry)
unfoldable pub validate_state : String → Time → OauthManager → Bool
validate_state state now m = elim (Dict.get m.state_store state) [
  | none ↦ false
  | some expiry ↦ ltb now expiry
]

-- 10 * time.Minute
abbrev pub state_ttl : ℕ
state_ttl = 600 * 1000000000

module _ (net : Provider) where
  -- The random bytes are an argument; `none` is an error of the random source. The URL and the state.
  unfoldable pub get_auth_url :
      Option (List ℕ)
      → Time
      → Time
      → OauthManager
      → Result AuthError (String × String) × OauthManager
  get_auth_url none now later m = (err (oauth_error "failed to generate state"), m)
  get_auth_url (some bytes) now later m =
      let state = base64 bytes in
      let stored : OauthManager = record m {
        state_store = Dict.put m.state_store state (now + state_ttl);
      } in
      (ok (net.auth_code_url state, state), cleanup_expired_states later stored)

  unfoldable pub exchange_code_for_token :
      String
      → String
      → Time
      → OauthManager × net.World
      → Result AuthError net.Token × OauthManager × net.World
  exchange_code_for_token code state now (m, w) =
      let used : OauthManager = record m { state_store = Dict.remove m.state_store state } in
      let (answer, w') = net.exchange code w in
      if not (validate_state state now m)
      then (err (oauth_error "invalid or expired state"), m, w)
      else elim answer [
        | none ↦ (err (oauth_error "failed to exchange code for token"), used, w')
        | some token ↦ (ok token, used, w')
      ]

  unfoldable pub parse_id_token : String → Result AuthError User
  parse_id_token token = elim (split_at b'.' token) [
    | [] ↦ err (oauth_error "invalid ID token format")
    | ◌∷◌ h parts ↦ parsed parts
  ]
    where
      read : String → Result AuthError User
      read part = elim (net.decode part) [
        | none ↦ err (oauth_error "failed to decode ID token payload")
        | some text ↦ elim (net.unmarshal text) [
          | none ↦ err (oauth_error "failed to parse ID token claims")
          | some fs ↦ ok (map_user_info fs)
        ]
      ]

      parsed : List String → Result AuthError User
      parsed (part ∷ sign ∷ []) = read part
      parsed _ = err (oauth_error "invalid ID token format")

  unfoldable pub get_user_info :
      net.Token → OauthManager → net.World → Result AuthError User × net.World
  get_user_info token m w =
      let (fetched, w') = net.fetch m.user_info_url token w in
      if m.user_info_url == ""
      then elim (net.id_token token) [
        | none ↦ (err (oauth_error "no user info URL configured and no ID token available"), w)
        | some text ↦ (parse_id_token text, w)
      ]
      else (answer_of fetched, w')
    where
      answer_of : Fetched → Result AuthError User
      answer_of no_answer = err (oauth_error "failed to get user info")
      answer_of (bad_status n) =
          err (oauth_error (text_append "user info request failed with status " (net.decimal n)))
      answer_of not_json = err (oauth_error "failed to decode user info")
      answer_of (claims fs) = ok (map_user_info fs)
