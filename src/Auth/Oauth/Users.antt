-- ===== src/Auth/Oauth/Users.antt =====
-- `mapUserInfo` of internal/auth/oauth.go: the user that a provider's claims describe.
use go_kube_ops_view.Prelude.{String, Option, none, some, List, [], ◌∷◌, ◌==◌, if◌then◌else◌}
use go_kube_ops_view.Dict
use go_kube_ops_view.Json.{Json, Items, str, arr, nil, cons}
use go_kube_ops_view.Models.{GoMap}
use go_kube_ops_view.Auth.Sessions.{User}

abbrev claim_at : String → GoMap Json → Option Json
claim_at key none = none
claim_at key (some m) = Dict.get m key

-- userInfo[key].(string)
unfoldable pub text_at : String → GoMap Json → Option String
text_at key fs = elim (claim_at key fs) [
  | none ↦ none
  | some v ↦ elim v [ str s ↦ some s | _ ↦ none ]
]

-- The first of two keys that has a text, or the empty text.
unfoldable pub either_text : String → String → GoMap Json → String
either_text a b fs = elim (text_at a fs) [
  | some s ↦ s
  | none ↦ elim (text_at b fs) [ some s ↦ s | none ↦ "" ]
]

-- An element that is no text leaves the empty text at its place.
unfoldable pub group_names : Items → List String
group_names nil = []
group_names (cons v vs) = let rest = group_names vs in elim v [ str s ↦ s ∷ rest | _ ↦ "" ∷ rest ]

unfoldable pub groups_of : GoMap Json → List String
groups_of fs = elim (claim_at "groups" fs) [
  | none ↦ []
  | some v ↦ elim v [ arr vs ↦ group_names vs | _ ↦ [] ]
]

abbrev pub or_text : String → String → String
or_text a b = if a == "" then b else a

unfoldable pub map_user_info : GoMap Json → User
map_user_info fs =
    let id = either_text "sub" "id" fs in
    let email = either_text "email" "email" fs in
    let username = or_text (either_text "preferred_username" "username" fs) (or_text email id) in
    record {
      id = id;
      email = email;
      name = or_text (either_text "name" "name" fs) username;
      username = username;
      groups = groups_of fs;
      claims = fs;
    }
