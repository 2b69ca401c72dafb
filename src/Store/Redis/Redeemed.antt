-- ===== src/Store/Redis/Redeemed.antt =====
-- `RedeemScreenToken` of internal/store/redis.go when no other process redeems the token meanwhile.
use go_kube_ops_view.Prelude.{
  String, Result, panic, Result-split, ◌⊎◌, ◌≡◌, ◌≢◌, refl, ap, ◌∙◌, true, Option, none, some, List,
  [], ◌∷◌, ok, err, Bool-cases, inl, inr, ltb, eq_refl, if◌then◌else◌, arith, Option-cases,
}
use go_kube_ops_view.Models.{Time}
use go_kube_ops_view.Store.{ScreenToken, token_not_found, token_expired, token_already_used}
use go_kube_ops_view.Store.Memory.{after}
use go_kube_ops_view.Store.Redis.Server.{
  Client, Command, set, expiry, View, Entry, Serves, live, text_of,
}
use go_kube_ops_view.Store.Redis.{
  Codecs, RedisStore, RedisError, known, command_failed, marshal_failed, token_key, execute, fetch,
}
use go_kube_ops_view.Store.Redis.Tokens.{redeem_check, redeem_mark, redeem_screen_token}

live-cases : (at : Time) (e : Entry) → (live at (some e) ≡ some e) ⊎ (live at (some e) ≡ none)
live-cases at e = live_when e.deadline
  where
    live_when :
        (d : Option Time)
        → ((elim d [ none ↦ some e | some t ↦ if ltb at t then some e else none ]) ≡ some e)
          ⊎ ((elim d [ none ↦ some e | some t ↦ if ltb at t then some e else none ]) ≡ none)
    live_when none = inl refl
    live_when (some d) = elim (Bool-cases (ltb at d)) [
      | inl l ↦ inl (rw l refl)
      | inr l ↦ inr (rw l refl)
    ]

module _ (c : Client) (json : Codecs) (view : c.World → View) (serves : Serves c view) where
  -- The token was used, whenever the server is asked.
  abbrev Used : String → View → Type 0
  Used token v =
      (e : Entry) × (t : ScreenToken) × (s : Time) × (v.entry (token_key token) ≡ some e)
      × (json.screen_token.decode e.text ≡ some t)
      × (t.used_at ≡ some s)

  redeem_mark-Used :
      (token addr : String) (t : ScreenToken) (at used : Time) (r : RedisStore c json)
      → ((u : ScreenToken) (text : String)
          → json.screen_token.encode u ≡ some text
          → json.screen_token.decode text ≡ some u)
      → (redeem_mark c json token addr t at used r).0 ≡ ok tt
      → Used token (view (redeem_mark c json token addr t at used r).1.world)
  unfolding redeem_mark execute
  redeem_mark-Used token addr t at used r round done =
      let t' : ScreenToken = record t { used_at = some used; remote_addr = addr } in
      elim (Option-cases (json.screen_token.encode t')) [
        | inl e ↦ let failed : err marshal_failed ≡ ok tt = rw (e, redeem_mark) at done in cc
        | inr (text, e) ↦
            let left = c.ttl (token_key token) at r.world in
            let cs = set (token_key token) text left.0 ∷ [] in
            let sent =
              serves.send_lem cs at left.1 (executed cs at left.1 (rw (e, redeem_mark) at done)) in
            let old = (view left.1).entry (token_key token) in
            (
              record { text = text; deadline = expiry left.0 at old },
              t',
              used,
              rw (e, redeem_mark) (rw sent (rw (eq_refl (token_key token)) refl)),
              round t' text e,
              refl,
            )
      ]
    where
      executed :
          (cs : List Command) (at : Time) (w : c.World)
          → ◌≡◌ {A = Result RedisError Unit}
              (if (c.send cs at w).0 then ok tt else err command_failed)
              (ok tt)
          → (c.send cs at w).0 ≡ true
      executed cs at w h = ground arith

  found-Used :
      (token : String) (at : Time) (r : RedisStore c json)
      → Used token (view r.world)
      → (t : ScreenToken)
      → (fetch c json json.screen_token token_not_found (token_key token) at r).0 ≡ ok t
      → (s : Time) × (t.used_at ≡ some s)
  unfolding fetch
  found-Used token at r (e, u, s, stored, decoded, used) t found =
      elim (Option-cases (c.get (token_key token) at r.world).0) [
        | inl q ↦ let no : err command_failed ≡ ok t = rw (q, fetch) at found in absurd (cc no)
        | inr (reply, q) ↦
            let got : reply ≡ text_of (live at (some e)) =
              serves.get_lem (token_key token) at r.world q
              ∙ ap (λ x. text_of (live at x)) stored in
            elim (live-cases at e) [
              | inl l ↦
                  let now : reply ≡ some e.text = got ∙ ap text_of l in
                  let same : ok u ≡ ok t =
                    rw (decoded, fetch) at (rw now at (rw (q, fetch) at found)) in
                  let same' : t ≡ u = cc same in
                  (s, ap (λ (x : ScreenToken). x.used_at) same' ∙ used)
              | inr l ↦
                  let now : reply ≡ none = got ∙ ap text_of l in
                  let no : err (known token_not_found) ≡ ok t =
                    rw now at (rw (q, fetch) at found) in
                  absurd (cc no)
            ]
      ]

  Used-fails :
      (token : String) (at now : Time) (r : RedisStore c json)
      → Used token (view r.world)
      → (t : ScreenToken) → (redeem_check c json token at now r).0 ≢ ok t
  unfolding redeem_check fetch
  Used-fails token at now r u t passed =
      let get = fetch c json json.screen_token token_not_found (token_key token) at r in
      elim (Result-split get.0) [
        | inr (inl (x, q)) ↦ let no : err x ≡ ok t = rw (q, redeem_check) at passed in cc
        | inr (inr q) ↦ let no : panic ≡ ok t = rw (q, redeem_check) at passed in cc
        | inl (t', q) ↦
            let (s, used) = found-Used token at r u t' q in
            elim (Bool-cases (after now t'.expires_at)) [
              | inl late ↦
                  let no : err (known token_expired) ≡ ok t =
                    rw late at (rw (q, redeem_check) at passed) in
                  cc
              | inr early ↦
                  let no : err (known token_already_used) ≡ ok t =
                    rw used at (rw early at (rw (q, redeem_check) at passed)) in
                  cc
            ]
      ]

  refused :
      (token addr : String) (at now at' mark : Time) (r : RedisStore c json)
      → Used token (view r.world)
      → (redeem_screen_token c json token addr at now at' mark r).0 ≢ ok tt
  unfolding redeem_screen_token
  refused token addr at now at' mark r used done =
      elim (Result-split (redeem_check c json token at now r).0) [
        | inr (inl (x, q)) ↦ let no : err x ≡ ok tt = rw (q, redeem_screen_token) at done in cc
        | inr (inr q) ↦ let no : panic ≡ ok tt = rw (q, redeem_screen_token) at done in cc
        | inl (t, q) ↦ Used-fails token at now r used t q
      ]

  -- Without an overlap a token is redeemed once: after a redemption that returned no error, while the
  -- server has what that left, no further redemption succeeds, whichever process tries and whenever.
  pub redeemed_alone :
      (token addr : String) (at now at' used : Time) (r : RedisStore c json)
      → ((u : ScreenToken) (text : String)
          → json.screen_token.encode u ≡ some text
          → json.screen_token.decode text ≡ some u)
      → (redeem_screen_token c json token addr at now at' used r).0 ≡ ok tt
      → (addr' : String) (s now' s' mark' : Time) (r' : RedisStore c json)
      → view r'.world ≡ view (redeem_screen_token c json token addr at now at' used r).1.world
      → (redeem_screen_token c json token addr' s now' s' mark' r').0 ≢ ok tt
  unfolding redeem_screen_token
  redeemed_alone token addr at now at' used r round done addr' s now' s' mark' r' same again =
      let check = redeem_check c json token at now r in
      elim (Result-split check.0) [
        | inr (inl (x, q)) ↦ let no : err x ≡ ok tt = rw (q, redeem_screen_token) at done in cc
        | inr (inr q) ↦ let no : panic ≡ ok tt = rw (q, redeem_screen_token) at done in cc
        | inl (t, q) ↦
            let marked =
              redeem_mark-Used token addr t at' used check.1 round
                (rw (q, redeem_screen_token) at done) in
            let spent : Used token (view r'.world) = rw same (rw (q, redeem_screen_token) marked) in
            refused token addr' s now' s' mark' r' spent again
      ]
