-- ===== src/Store/Redis/Race.antt =====
-- `RedeemScreenToken` of internal/store/redis.go reads the token, checks it and writes it back in
-- separate commands, with nothing that holds other processes off in between.
use go_kube_ops_view.Prelude.{
  String, ◌≡◌, ◌≤◌, refl, sym, subst, ◌∙◌, true, false, Option, none, some, List, ok, arith,
}
use go_kube_ops_view.Models.{Time}
use go_kube_ops_view.Store.{ScreenToken, token_not_found}
use go_kube_ops_view.Store.Memory.{after}
use go_kube_ops_view.Store.Redis.Server.{Client, Command, View, Serves, live, text_of}
use go_kube_ops_view.Store.Redis.{Codecs, RedisStore, token_key, execute, fetch}
use go_kube_ops_view.Store.Redis.Tokens.{redeem_check, redeem_mark}

-- Every command gets a reply.
pub record IsUp (c : Client) : Type 0 where
  pub sends : (cs : List Command) (at : Time) (w : c.World) → (c.send cs at w).0 ≡ true
  pub gets :
      (k : String) (at : Time) (w : c.World) → (r : Option String) × ((c.get k at w).0 ≡ some r)

module _ (c : Client) (json : Codecs) (view : c.World → View) (serves : Serves c view) where
  -- The server has the token, which has not expired at a time.
  pub record Has (token : String) (t : ScreenToken) (at : Time) (v : View) : Type 0 where
    pub text : String
    pub decoded : json.screen_token.decode text ≡ some t
    pub stored : text_of (live at (v.entry (token_key token))) ≡ some text

  fetch-view :
      (token : String) (at : Time) (r : RedisStore c json)
      → view (fetch c json json.screen_token token_not_found (token_key token) at r).1.world
        ≡ view r.world
  unfolding fetch
  fetch-view token at r = serves.get_kept (token_key token) at r.world

  module _ (up : IsUp c) where
    fetched :
        (token : String) (t : ScreenToken) (at : Time) (r : RedisStore c json)
        → Has token t at (view r.world)
        → (fetch c json json.screen_token token_not_found (token_key token) at r).0 ≡ ok t
    unfolding fetch
    fetched token t at r has =
        let (reply, q) = up.gets (token_key token) at r.world in
        let e : reply ≡ some has.text =
          serves.get_lem (token_key token) at r.world q ∙ has.stored in
        rw (q, fetch) (rw e (rw (has.decoded, fetch) refl))

    -- The check of an unused token in time lets it through, and leaves the server as it is.
    redeem_check_passes :
        (token : String) (t : ScreenToken) (at now : Time) (r : RedisStore c json)
        → Has token t at (view r.world)
        → t.used_at ≡ none
        → now ≤ t.expires_at
        → ((redeem_check c json token at now r).0 ≡ ok t)
          × (view (redeem_check c json token at now r).1.world ≡ view r.world)
    unfolding redeem_check
    redeem_check_passes token t at now r has unused early =
        let get = fetched token t at r has in
        let same = fetch-view token at r in
        let late : after now t.expires_at ≡ false = ground arith in
        (
          rw (get, redeem_check) (rw late (simp unused)),
          rw (get, redeem_check) (rw late (rw unused same)),
        )

    redeem_mark_passes :
        (token addr : String) (t : ScreenToken) (at used : Time) (r : RedisStore c json)
        → ((u : ScreenToken) → (text : String) × (json.screen_token.encode u ≡ some text))
        → (redeem_mark c json token addr t at used r).0 ≡ ok tt
    unfolding redeem_mark execute
    redeem_mark_passes token addr t at used r enc =
        let (text, e) = enc (record t { used_at = some used; remote_addr = addr }) in
        rw (e, redeem_mark) (rw (up.sends _ at _) refl)

    -- Two processes that redeem one token at the same time both succeed: if the second reads the
    -- token before the first has written it, each finds it unused.
    pub both_redeem :
        (token addr addr' : String) (t : ScreenToken) (at now at' now' : Time)
        (mark used mark' used' : Time) (r r' : RedisStore c json)
        → Has token t at (view r.world)
        → Has token t at' (view r.world)
        → t.used_at ≡ none
        → now ≤ t.expires_at
        → now' ≤ t.expires_at
        → ((u : ScreenToken) → (text : String) × (json.screen_token.encode u ≡ some text))
        → let one = redeem_check c json token at now r in
          let two = redeem_check c json token at' now' (record r' { world = one.1.world }) in
          let done =
            redeem_mark c json token addr t mark used (record one.1 { world = two.1.world }) in
          let done' =
            redeem_mark c json token addr' t mark' used' (record two.1 { world = done.1.world }) in
          (one.0 ≡ ok t) × (two.0 ≡ ok t) × (done.0 ≡ ok tt) × (done'.0 ≡ ok tt)
    both_redeem token addr addr' t at now at' now' mark used mark' used' r r' has has' unused early
          early' enc =
        let one = redeem_check_passes token t at now r has unused early in
        let r'' : RedisStore c json = record r' {
          world = (redeem_check c json token at now r).1.world;
        } in
        let two =
          redeem_check_passes token t at' now' r'' (subst (Has token t at') (sym one.1) has') unused
            early' in
        (
          one.0,
          two.0,
          redeem_mark_passes token addr t mark used _ enc,
          redeem_mark_passes token addr' t mark' used' _ enc,
        )
