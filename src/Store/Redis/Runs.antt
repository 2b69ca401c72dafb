-- ===== src/Store/Redis/Runs.antt =====
-- The calls that a process makes of a `RedisStore` (internal/store/redis.go), in any order.
use go_kube_ops_view.Prelude.{ℕ, String, ◌≡◌, Option, some, List, [], ◌∷◌, ok}
use go_kube_ops_view.Models.{Time}
use go_kube_ops_view.Store.{Payload}
use go_kube_ops_view.Store.Contract.{Contents, Call, set_data, set_status, delete, perform}
use go_kube_ops_view.Store.Redis.Server.{Client}
use go_kube_ops_view.Store.Redis.{
  Codecs, RedisStore, Outcome, set_cluster_data, set_cluster_status, delete_cluster, publish_event,
}
use go_kube_ops_view.Store.Redis.Tokens.{
  create_screen_token, redeem_screen_token, validate_screen_token, delete_screen_token,
}

module _ (c : Client) (json : Codecs) where
  abbrev pub Store : Type 0
  Store = RedisStore c json

  -- The calls of a process, each with the server's times of its commands and its clock readings.
  pub data Op : Type 0 where
    call : Call → Time → Op
    create : Option (List ℕ) → Time → Time → Time → Op
    redeem : String → String → Time → Time → Time → Time → Op
    validate : String → Time → Time → Op
    revoke : String → Time → Op
    publish : String → Payload → Time → Op

  abbrev pub called : Call → Time → Store → Outcome c json (Unit {0})
  called (set_data id cd) = set_cluster_data c json id (some cd)
  called (set_status id s) = set_cluster_status c json id (some s)
  called (delete id) = delete_cluster c json id

  abbrev pub step : Op → Store → Store
  step (call k at) r = (called k at r).1
  step (create random created expires at) r =
      (create_screen_token c json random created expires at r).1
  step (redeem token addr at now at' used) r =
      (redeem_screen_token c json token addr at now at' used r).1
  step (validate token at now) r = (validate_screen_token c json token at now r).1
  step (revoke token at) r = (delete_screen_token c json token at r).1
  step (publish kind payload now) r = (publish_event c json kind payload now r).1

  abbrev pub run : List Op → Store → Store
  run [] r = r
  run (o ∷ os) r = run os (step o r)

  -- No call that sets or deletes a cluster returned an error; the others may.
  abbrev pub Succeeds : Op → Store → Type 0
  Succeeds (call k at) r = (called k at r).0 ≡ ok tt
  Succeeds _ r = Unit

  abbrev pub AllSucceed : List Op → Store → Type 0
  AllSucceed [] r = Unit
  AllSucceed (o ∷ os) r = Succeeds o r × AllSucceed os (step o r)

  -- The contract's view of them.
  abbrev pub promised : Op → Contents → Contents
  promised (call q at) k = perform q k
  promised _ k = k

  abbrev pub promised_all : List Op → Contents → Contents
  promised_all [] k = k
  promised_all (o ∷ os) k = promised_all os (promised o k)
