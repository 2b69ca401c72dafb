-- ===== src/Store/Redis/Tokens.antt =====
-- The screen tokens of internal/store/redis.go.
use go_kube_ops_view.Prelude.{
  ℕ, ◌+◌, String, Bool, true, false, Option, none, some, List, [], ◌∷◌, ok, err, panic, length,
  if◌then◌else◌,
}
use go_kube_ops_view.Models.{Time}
use go_kube_ops_view.Store.{
  ScreenToken, token_not_found, token_expired, token_already_used, token_generation_failed,
}
use go_kube_ops_view.Store.Memory.{after, hex}
use go_kube_ops_view.Store.Redis.Server.{Client, set, del, lasts}
use go_kube_ops_view.Store.Redis.{
  Codecs, RedisStore, Outcome, known, marshal_failed, token_key, fetch, execute,
}

module _ (c : Client) (json : Codecs) where
  -- `none` is an error of `rand.Read`.
  unfoldable pub create_screen_token :
      Option (List ℕ) → Time → Time → Time → RedisStore c json → Outcome c json String
  create_screen_token none created expires now r = (err (known token_generation_failed), r)
  create_screen_token (some bytes) created expires now r =
      let token = hex bytes in
      elim (json.screen_token.encode (record {
        token = token;
        created_at = created;
        expires_at = expires + r.token_ttl;
        used_at = none;
        remote_addr = "";
      })) [
        | none ↦ (err marshal_failed, r)
        | some text ↦
            let stored =
              execute c json (set (token_key token) text (lasts r.token_ttl) ∷ []) now r in
            elim stored.0 [
              | ok _ ↦ (ok token, stored.1)
              | err e ↦ (err e, stored.1)
              | panic ↦ (panic, stored.1)
            ]
      ]

  -- `RedeemScreenToken` up to the check that the token is not used. `now` is the clock's reading.
  unfoldable pub redeem_check :
      String → Time → Time → RedisStore c json → Outcome c json ScreenToken
  redeem_check token at now r =
      let (found, r') = fetch c json json.screen_token token_not_found (token_key token) at r in
      elim found [
        | err e ↦ (err e, r')
        | panic ↦ (panic, r')
        | ok t ↦
            if after now t.expires_at
            then (
              err (known token_expired),
              record r' { world = (c.send (del (token_key token) ∷ []) at r'.world).1 },
            )
            else elim t.used_at [
              | some _ ↦ (err (known token_already_used), r')
              | none ↦ (ok t, r')
            ]
      ]

  -- The rest of it: the used token is written, for the time that the old one had left.
  unfoldable pub redeem_mark :
      String → String → ScreenToken → Time → Time → RedisStore c json → Outcome c json Unit
  redeem_mark token addr t at now r =
      elim (json.screen_token.encode (record t { used_at = some now; remote_addr = addr })) [
        | none ↦ (err marshal_failed, r)
        | some text ↦
            let left = c.ttl (token_key token) at r.world in
            execute c json (set (token_key token) text left.0 ∷ []) at (record r { world = left.1 })
      ]

  -- `at` and `at'` are the server's times of the reading and the writing commands.
  unfoldable pub redeem_screen_token :
      String → String → Time → Time → Time → Time → RedisStore c json → Outcome c json Unit
  redeem_screen_token token addr at now at' used r =
      let (checked, r') = redeem_check token at now r in
      elim checked [
        | err e ↦ (err e, r')
        | panic ↦ (panic, r')
        | ok t ↦ redeem_mark token addr t at' used r'
      ]

  unfoldable pub validate_screen_token :
      String → Time → Time → RedisStore c json → Bool × RedisStore c json
  validate_screen_token token at now r =
      let (found, r') = fetch c json json.screen_token token_not_found (token_key token) at r in
      (elim found [ ok t ↦ (if after now t.expires_at then false else true) | _ ↦ false ], r')

  unfoldable pub delete_screen_token : String → Time → RedisStore c json → Outcome c json Unit
  delete_screen_token token = execute c json (del (token_key token) ∷ [])

  unfoldable pub get_token_count : Time → RedisStore c json → ℕ × RedisStore c json
  get_token_count now r =
      let reply = c.keys (token_key "*") now r.world in
      (elim reply.0 [ none ↦ 0 | some l ↦ length l ], record r { world = reply.1 })
