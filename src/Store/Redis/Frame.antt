-- ===== src/Store/Redis/Frame.antt =====
-- Events and screen tokens leave the clusters alone (internal/store/redis.go).
use go_kube_ops_view.Prelude.{
  ℕ, String, ◌≡◌, refl, Option, none, some, List, [], ◌∷◌, inl, inr, ok, Bool-cases, Option-cases,
  All, arith, ◌+◌, Result-split,
}
use go_kube_ops_view.Models.{Time}
use go_kube_ops_view.Store.{token_not_found, StoreError, Payload, ScreenToken, Event}
use go_kube_ops_view.Store.Memory.{after, hex, payload_cluster_id}
use go_kube_ops_view.Store.Contract.{Contents}
use go_kube_ops_view.Store.Redis.Server.{Client, Command, set, del, lasts, View, Serves, effects}
use go_kube_ops_view.Store.Redis.Holds.{Holds, OnToken, effects-Holds}
use go_kube_ops_view.Store.Redis.{
  Codec, Codecs, RedisStore, token_key, execute, fetch, publish_event, event_channel,
}
use go_kube_ops_view.Store.Redis.Tokens.{
  create_screen_token, redeem_check, redeem_mark, redeem_screen_token,
}

module _ (c : Client) (json : Codecs) (view : c.World → View) (serves : Serves c view) where
  abbrev pub HoldsIn : RedisStore c json → Contents → Type 0
  HoldsIn r k = Holds json (view r.world) k

  pub fetch-HoldsIn :
      {A : Type 0} (codec : Codec A) (missing : StoreError) (key : String) (at : Time)
      (r : RedisStore c json) (k : Contents)
      → HoldsIn r k
      → HoldsIn (fetch c json codec missing key at r).1 k
  unfolding fetch
  fetch-HoldsIn codec missing key at r k h = rw (serves.get_kept key at r.world) h

  pub execute_ok :
      (cs : List Command) (at : Time) (r : RedisStore c json)
      → (execute c json cs at r).0 ≡ ok tt
      → view (execute c json cs at r).1.world ≡ effects at cs (view r.world)
  unfolding execute
  execute_ok cs at r h = serves.send_lem cs at r.world (ground arith)

  pub tokens-HoldsIn :
      (cs : List Command) (at : Time) (r : RedisStore c json) (k : Contents)
      → All OnToken cs
      → HoldsIn r k
      → Holds json (view (c.send cs at r.world).1) k
  tokens-HoldsIn cs at r k o h =
      let (ds, part, e) = serves.send_any cs at r.world in
      rw e (effects-Holds json k at (view r.world) part o h)

  pub execute-HoldsIn :
      (cs : List Command) (at : Time) (r : RedisStore c json) (k : Contents)
      → All OnToken cs
      → HoldsIn r k
      → HoldsIn (execute c json cs at r).1 k
  unfolding execute
  execute-HoldsIn cs at r k o h = tokens-HoldsIn cs at r k o h

  pub create-HoldsIn :
      (random : Option (List ℕ)) (created expires at : Time) (r : RedisStore c json) (k : Contents)
      → HoldsIn r k
      → HoldsIn (create_screen_token c json random created expires at r).1 k
  unfolding create_screen_token
  create-HoldsIn none created expires at r k h = h
  create-HoldsIn (some bytes) created expires at r k h =
      let t : ScreenToken = record {
        token = hex bytes;
        created_at = created;
        expires_at = expires + r.token_ttl;
        used_at = none;
        remote_addr = "";
      } in
      elim (Option-cases (json.screen_token.encode t)) [
        | inl e ↦ rw (e, create_screen_token) h
        | inr (text, e) ↦
            let cs = set (token_key (hex bytes)) text (lasts r.token_ttl) ∷ [] in
            let kept = execute-HoldsIn cs at r k ((hex bytes, refl), tt) h in
            elim (Result-split (execute c json cs at r).0) [
              | inl (u, q) ↦ rw (e, create_screen_token) (rw q kept)
              | inr (inl (x, q)) ↦ rw (e, create_screen_token) (rw q kept)
              | inr (inr q) ↦ rw (e, create_screen_token) (rw q kept)
            ]
      ]

  redeem_check-HoldsIn :
      (token : String) (at now : Time) (r : RedisStore c json) (k : Contents)
      → HoldsIn r k
      → HoldsIn (redeem_check c json token at now r).1 k
  unfolding redeem_check
  redeem_check-HoldsIn token at now r k h =
      let get = fetch c json json.screen_token token_not_found (token_key token) at r in
      let got = fetch-HoldsIn json.screen_token token_not_found (token_key token) at r k h in
      elim (Result-split get.0) [
        | inr (inl (x, q)) ↦ rw (q, redeem_check) got
        | inr (inr q) ↦ rw (q, redeem_check) got
        | inl (t, q) ↦ elim (Bool-cases (after now t.expires_at)) [
          | inl late ↦
              rw (q, redeem_check)
                (rw late
                  (tokens-HoldsIn (del (token_key token) ∷ []) at get.1 k ((token, refl), tt) got))
          | inr early ↦ elim (Option-cases t.used_at) [
            | inl u ↦ rw (q, redeem_check) (rw early (rw u got))
            | inr (s, u) ↦ rw (q, redeem_check) (rw early (rw u got))
          ]
        ]
      ]

  redeem_mark-HoldsIn :
      (token addr : String) (t : ScreenToken) (at now : Time) (r : RedisStore c json) (k : Contents)
      → HoldsIn r k
      → HoldsIn (redeem_mark c json token addr t at now r).1 k
  unfolding redeem_mark
  redeem_mark-HoldsIn token addr t at now r k h =
      elim (Option-cases
        (json.screen_token.encode (record t { used_at = some now; remote_addr = addr }))) [
          | inl e ↦ rw (e, redeem_mark) h
          | inr (text, e) ↦
              rw (e, redeem_mark)
                (execute-HoldsIn _ at _ k ((token, refl), tt)
                  (rw (serves.ttl_kept (token_key token) at r.world) h))
        ]

  pub redeem-HoldsIn :
      (token addr : String) (at now at' used : Time) (r : RedisStore c json) (k : Contents)
      → HoldsIn r k
      → HoldsIn (redeem_screen_token c json token addr at now at' used r).1 k
  unfolding redeem_screen_token
  redeem-HoldsIn token addr at now at' used r k h =
      let check = redeem_check c json token at now r in
      let checked = redeem_check-HoldsIn token at now r k h in
      elim (Result-split check.0) [
        | inr (inl (x, q)) ↦ rw (q, redeem_screen_token) checked
        | inr (inr q) ↦ rw (q, redeem_screen_token) checked
        | inl (t, q) ↦
            rw (q, redeem_screen_token)
              (redeem_mark-HoldsIn token addr t at' used check.1 k checked)
      ]

  pub publish-HoldsIn :
      (kind : String) (payload : Payload) (now : Time) (r : RedisStore c json) (k : Contents)
      → HoldsIn r k
      → HoldsIn (publish_event c json kind payload now r).1 k
  unfolding publish_event
  publish-HoldsIn kind payload now r k h = elim (Option-cases (payload_cluster_id payload)) [
    | inl q ↦ rw (q, publish_event) h
    | inr (id, q) ↦
        let e : Event = record {
          kind = kind;
          payload = payload;
          timestamp = now;
          cluster_id = id;
        } in
        elim (Option-cases (json.event.encode e)) [
          | inl x ↦ rw (q, publish_event) (rw (x, publish_event) h)
          | inr (text, x) ↦
              rw (q, publish_event)
                (rw (x, publish_event) (rw (serves.publish_kept event_channel text r.world) h))
        ]
  ]
