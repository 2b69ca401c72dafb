-- ===== src/Auth/Manager/Once.antt =====
-- internal/auth: what a state of a sign-in and a session's ID are good for after their use.
use go_kube_ops_view.Prelude.{
  ℕ, String, ◌≡◌, refl, ap, sym, subst, ◌∙◌, Bool, true, false, Option, none, some, List, [], ◌∷◌,
  Result, err, All, ◌==◌, ◌&&◌, ◌+◌, eq_refl, not, ltb, arith, Bool-cases, Result-split, inl, inr,
}
use go_kube_ops_view.Dict
use go_kube_ops_view.Dict.{Dict, get-put, get-remove, get-delete_if}
use go_kube_ops_view.Models.{Time}
use go_kube_ops_view.Auth.Sessions.{base64}
use go_kube_ops_view.Auth.Oauth.{
  AuthError, oauth_error, Provider, OauthManager, state_ttl, validate_state, get_auth_url,
  exchange_code_for_token, cleanup_expired_states,
}
use go_kube_ops_view.Auth.Middleware.{Request, Reply}
use go_kube_ops_view.Auth.Manager.{
  Manager, Instants, handle_login, handle_callback, handle_logout, sign_in, complete_callback,
}
use go_kube_ops_view.Auth.Manager.Runs.{
  Visit, login, callback, logout, guarded, cleanup, step, run, IsOtherState, IsOther,
}

module _ (net : Provider) where
  abbrev pub state_of : String → Manager net → Option Time
  state_of state m = Dict.get m.oauth.state_store state

  sign_in-oauth :
      (r : Request) (state : String) (t : Instants) (token : net.Token) (m : Manager net)
      → (sign_in net r state t token m).1.oauth ≡ m.oauth
  unfolding sign_in
  sign_in-oauth r state t token m = ground arith

  exchange_keeps_gone :
      (code s state : String) (now : Time) (o : OauthManager) (w : net.World)
      → Dict.get o.state_store state ≡ none
      → Dict.get (exchange_code_for_token net code s now (o, w)).1.state_store state ≡ none
  unfolding exchange_code_for_token
  exchange_keeps_gone code s state now o w h = ground (arith, h, get-remove o.state_store s state)

  login_keeps_gone :
      (state : String) (r : Request) (bytes : Option (List ℕ)) (now later : Time) (m : Manager net)
      → IsOther state bytes
      → state_of state m ≡ none
      → state_of state (handle_login net r bytes now later m).1 ≡ none
  unfolding handle_login get_auth_url cleanup_expired_states
  login_keeps_gone state r none now later m n h = ground (arith, h)
  login_keeps_gone state r (some bytes) now later m n h =
      let stored = Dict.put m.oauth.state_store (base64 bytes) (now + state_ttl) in
      ground (
        arith,
        h,
        n,
        get-put m.oauth.state_store (base64 bytes) state (now + state_ttl),
        get-delete_if (λ s expiry. ltb expiry later) stored state,
      )

  -- The state that a callback bears, and what the exchange of its code leaves.
  abbrev exchange :
      Request → Instants → Manager net → Result AuthError net.Token × OauthManager × net.World
  exchange r t m =
      exchange_code_for_token net (r.query "code") (r.query "state") t.checked (m.oauth, m.world)

  complete-oauth :
      (r : Request) (t : Instants) (m : Manager net)
      → (complete_callback net r t m).1.oauth ≡ (exchange r t m).1
  unfolding complete_callback
  complete-oauth r t m =
      let o = exchange r t m in
      elim (Result-split o.0) [
        | inl (tok, q) ↦
            rw (q, complete_callback)
              (sign_in-oauth r (r.query "state") t tok (record m { oauth = o.1; world = o.2 }))
        | inr (inl (e, q)) ↦ rw (q, complete_callback) refl
        | inr (inr q) ↦ rw (q, complete_callback) refl
      ]

  -- A callback with all that it needs, while authentication is on.
  abbrev pub is_whole : Request → Manager net → Bool
  is_whole r m =
      m.enabled
      && r.query "error" == ""
      && not (r.query "code" == "")
      && not (r.query "state" == "")

  pub callback_whole :
      (r : Request) (t : Instants) (m : Manager net)
      → is_whole r m ≡ true
      → handle_callback net r t m ≡ complete_callback net r t m
  unfolding handle_callback
  callback_whole r t m h = ground arith

  pub callback_partial :
      (r : Request) (t : Instants) (m : Manager net)
      → is_whole r m ≡ false
      → (handle_callback net r t m).1 ≡ m
  unfolding handle_callback
  callback_partial r t m h = ground arith

  callback_keeps_gone :
      (state : String) (r : Request) (t : Instants) (m : Manager net)
      → state_of state m ≡ none
      → state_of state (handle_callback net r t m).1 ≡ none
  callback_keeps_gone state r t m h = elim (Bool-cases (is_whole r m)) [
    | inr w ↦ ap (state_of state) (callback_partial r t m w) ∙ h
    | inl w ↦
        ap (λ (o : List Reply × Manager net). state_of state o.1) (callback_whole r t m w)
        ∙ ap (λ (o : OauthManager). Dict.get o.state_store state) (complete-oauth r t m)
        ∙ exchange_keeps_gone (r.query "code") (r.query "state") state t.checked m.oauth m.world h
  ]

  step_keeps_gone :
      (state : String) (v : Visit) (m : Manager net)
      → IsOtherState state v
      → state_of state m ≡ none
      → state_of state (step net v m) ≡ none
  unfolding step handle_logout
  step_keeps_gone state (login r bytes now later) m n h =
      login_keeps_gone state r bytes now later m n h
  step_keeps_gone state (callback r t) m n h = callback_keeps_gone state r t m h
  step_keeps_gone state (logout r) m n h = ground (arith, h)
  step_keeps_gone state (guarded valid r now seen) m n h = h
  step_keeps_gone state (cleanup now) m n h = h

  run_keeps_gone :
      (state : String) (vs : List Visit) (m : Manager net)
      → All (IsOtherState state) vs
      → state_of state m ≡ none
      → state_of state (run net vs m) ≡ none
  unfolding run
  run_keeps_gone state [] m n h = h
  run_keeps_gone state (v ∷ vs) m n h =
      run_keeps_gone state vs (step net v m) n.1 (step_keeps_gone state v m n.0 h)

  used_gone :
      (r : Request) (t : Instants) (m : Manager net)
      → is_whole r m ≡ true
      → validate_state (r.query "state") t.checked m.oauth ≡ true
      → state_of (r.query "state") (handle_callback net r t m).1 ≡ none
  unfolding exchange_code_for_token
  used_gone r t m w v =
      let s = r.query "state" in
      ap (λ (o : List Reply × Manager net). state_of s o.1) (callback_whole r t m w)
      ∙ ap (λ (o : OauthManager). Dict.get o.state_store s) (complete-oauth r t m)
      ∙ ground (arith, v, get-remove m.oauth.state_store s s, eq_refl s)

  abbrev Exchanged : Type 0
  Exchanged = Result AuthError net.Token × OauthManager × net.World

  exchange_refused :
      (r : Request) (t : Instants) (m : Manager net)
      → state_of (r.query "state") m ≡ none
      → exchange r t m ≡ (err (oauth_error "invalid or expired state"), m.oauth, m.world)
  unfolding exchange_code_for_token validate_state
  exchange_refused r t m h = rw (h, exchange_code_for_token, validate_state) refl

  gone_changes_nothing :
      (r : Request) (t : Instants) (m : Manager net)
      → state_of (r.query "state") m ≡ none
      → (handle_callback net r t m).1 ≡ m
  unfolding complete_callback
  gone_changes_nothing r t m h = elim (Bool-cases (is_whole r m)) [
    | inr w ↦ callback_partial r t m w
    | inl w ↦
        let q = exchange_refused r t m h in
        ap (λ (o : List Reply × Manager net). o.1) (callback_whole r t m w)
        ∙ rw (ap (λ (o : Exchanged). o.0) q, complete_callback)
            (ap (λ (o : Exchanged). with_exchange m o) q)
  ]
    where
      with_exchange : Manager net → Exchanged → Manager net
      with_exchange m o = record m { oauth = o.1; world = o.2 }

  -- The state of a sign-in is good for one callback: once a callback's state was accepted, whatever
  -- the provider then answered, no later callback that bears it signs anyone in, asks the provider
  -- or changes anything, unless a login draws the same state again.
  pub callback_once :
      (r r' : Request) (t t' : Instants) (vs : List Visit) (m : Manager net)
      → is_whole r m ≡ true
      → validate_state (r.query "state") t.checked m.oauth ≡ true
      → All (IsOtherState (r.query "state")) vs
      → r'.query "state" ≡ r.query "state"
      → let m' = run net vs (handle_callback net r t m).1 in (handle_callback net r' t' m').1 ≡ m'
  callback_once r r' t t' vs m w v n same =
      let m' = run net vs (handle_callback net r t m).1 in
      gone_changes_nothing r' t' m' (
        subst (λ s. state_of s m' ≡ none) (sym same)
          (run_keeps_gone (r.query "state") vs (handle_callback net r t m).1 n
            (used_gone r t m w v)))
