-- ===== src/Tests/Redis.antt =====
-- The Redis store on a server that always answers.
use go_kube_ops_view.Prelude.{
  String, ◌≡◌, ◌≢◌, ◌⊎◌, refl, sym, ap, subst, none≢some, Bool, true, false, ◌&&◌, Option, none,
  some, List, [], ◌∷◌, ok, err, any, ◌==◌, nat_eq, if◌then◌else◌, arith, eq_iff, Bool-cases, inl,
  inr,
}
use go_kube_ops_view.Models.{Time}
use go_kube_ops_view.Store.{ScreenToken}
use go_kube_ops_view.Store.Contract.{nothing, is_present, set_data, delete}
use go_kube_ops_view.Store.Redis.Server.{live, text_of}
use go_kube_ops_view.Store.Redis.{
  Codec, Codecs, RedisStore, command_failed, cluster_set_key, get_cluster_data, get_cluster_status,
  get_cluster_ids, fetch, execute, set_cluster_data, delete_cluster,
}
use go_kube_ops_view.Store.Redis.Tokens.{redeem_check, redeem_mark, redeem_screen_token}
use go_kube_ops_view.Store.Redis.Runs.{AllSucceed, Op, call, revoke, run, promised_all}
use go_kube_ops_view.Store.Redis.Refinement.{Answer, redis_refines}
use go_kube_ops_view.Store.Redis.Race.{IsUp, Has, both_redeem}
use go_kube_ops_view.Store.Redis.Redeemed.{redeemed_alone}
use go_kube_ops_view.Tests.Data.{data_of}
use go_kube_ops_view.Tests.RedisServer.{Held, view, client, serves}

-- A codec with one text for all values.
abbrev one_text : {A : Type 0} → A → Codec A
one_text a = record { encode = λ x. some "{}"; decode = λ s. some a }

abbrev fresh : ScreenToken
fresh = record { token = "t0"; created_at = 0; expires_at = 100; used_at = none; remote_addr = "" }

abbrev json : Codecs
json = record {
  cluster_data = one_text (data_of "a");
  cluster_status = record { encode = λ x. none; decode = λ s. none };
  screen_token = one_text fresh;
  event = record { encode = λ x. none; decode = λ s. none };
}

abbrev store : Held → RedisStore client json
store w = record { world = w; events = []; token_ttl = 100; closed = false; next_channel = 0 }

abbrev empty : Held
empty = record { entry = λ k. none; members = [] }

abbrev history : List (Op client json)
history = call (set_data "a" (data_of "a")) 5 ∷ revoke "t0" 6 ∷ call (delete "b") 7 ∷ []

history_succeeds : AllSucceed client json history (store empty)
unfolding set_cluster_data delete_cluster execute
history_succeeds = (refl, (tt, (refl, tt)))

redis_refines_example :
    let r = run client json history (store empty) in
    let k = promised_all client json history nothing in
    (((get_cluster_data client json "a" 9 r).0 ≡ err command_failed)
      ⊎ ((get_cluster_data client json "a" 9 r).0 ≡ Answer json.cluster_data (k.data_of "a")))
    × (((get_cluster_status client json "a" 9 r).0 ≡ err command_failed)
        ⊎ ((get_cluster_status client json "a" 9 r).0
            ≡ Answer json.cluster_status (k.status_of "a")))
    × (((client.smembers cluster_set_key r.world).0 ≡ none)
        ⊎ (any (λ j. j == "a") (get_cluster_ids client json r).0 ≡ is_present (k.data_of "a")))
redis_refines_example =
    redis_refines client json view serves history (store empty) nothing "a" 9
      (record { data_kept = λ id. refl; status_kept = λ id. refl; members_kept = λ id. refl })
      history_succeeds

abbrev issued : Held
issued = record {
  entry = λ k.
      if k == "kube-ops-view:token:t0"
      then some (record { text = "{}"; deadline = some 100 })
      else none;
  members = [];
}

up : IsUp client
up = record { sends = λ cs at w. refl; gets = λ k at w. (text_of (live at (w.entry k)), refl) }

has : Has client json view serves "t0" fresh 50 (view issued)
has = record { text = "{}"; decoded = refl; stored = refl }

both_redeem_example :
    let one = redeem_check client json "t0" 50 50 (store issued) in
    let two = redeem_check client json "t0" 50 50 (record (store issued) { world = one.1.world }) in
    let done =
      redeem_mark client json "t0" "10.0.0.1" fresh 51 51 (record one.1 { world = two.1.world }) in
    let done' =
      redeem_mark client json "t0" "10.0.0.2" fresh 51 51 (record two.1 { world = done.1.world }) in
    (one.0 ≡ ok fresh) × (two.0 ≡ ok fresh) × (done.0 ≡ ok tt) × (done'.0 ≡ ok tt)
both_redeem_example =
    both_redeem client json view serves up "t0" "10.0.0.1" "10.0.0.2" fresh 50 50 50 50 51 51 51 51
      (store issued) (store issued) has has refl (omega arith) (omega arith) (λ u. ("{}", refl))

abbrev time_eq : Option Time → Option Time → Bool
time_eq none none = true
time_eq (some s) (some t) = nat_eq s t
time_eq _ _ = false

abbrev token_eq : ScreenToken → ScreenToken → Bool
token_eq s t =
    s.token == t.token
    && nat_eq s.created_at t.created_at
    && nat_eq s.expires_at t.expires_at
    && time_eq s.used_at t.used_at
    && s.remote_addr == t.remote_addr

time_eq_lem : (s t : Option Time) → time_eq s t ≡ true → s ≡ t
time_eq_lem none none h = refl
time_eq_lem (some s) (some t) h = ground arith
time_eq_lem none (some t) h = cc
time_eq_lem (some s) none h = cc

token_eq_lem : (s t : ScreenToken) → token_eq s t ≡ true → s ≡ t
token_eq_lem s t h = ground (
  arith,
  eq_iff s.token t.token,
  eq_iff s.remote_addr t.remote_addr,
  time_eq_lem s.used_at t.used_at,
)

abbrev used : ScreenToken
used = record fresh { used_at = some 51; remote_addr = "10.0.0.1" }

-- A codec of two tokens: it fails on every other.
abbrev two_tokens : Codec ScreenToken
two_tokens = record {
  encode =
      λ t. if token_eq t fresh then some "{}" else if token_eq t used then some "{used}" else none;
  decode = λ s. if s == "{}" then some fresh else if s == "{used}" then some used else none;
}

round :
    (t : ScreenToken) (text : String)
    → two_tokens.encode t ≡ some text
    → two_tokens.decode text ≡ some t
round t text h = elim (Bool-cases (token_eq t fresh)) [
  | inl e ↦
      let is : some "{}" ≡ some text = rw e at h in
      let is' : "{}" ≡ text = cc is in
      subst (λ (x : String). two_tokens.decode x ≡ some t) is'
        (ap some (sym (token_eq_lem t fresh e)))
  | inr n ↦ elim (Bool-cases (token_eq t used)) [
    | inl e ↦
        let is : some "{used}" ≡ some text = rw e at (rw n at h) in
        let is' : "{used}" ≡ text = cc is in
        subst (λ (x : String). two_tokens.decode x ≡ some t) is'
          (ap some (sym (token_eq_lem t used e)))
    | inr m ↦ let no : none ≡ some text = rw m at (rw n at h) in absurd (none≢some no)
  ]
]

abbrev json_of_two : Codecs
json_of_two = record json { screen_token = two_tokens }

abbrev issued_store : RedisStore client json_of_two
issued_store = record {
  world = issued;
  events = [];
  token_ttl = 100;
  closed = false;
  next_channel = 0;
}

first_redeemed :
    (redeem_screen_token client json_of_two "t0" "10.0.0.1" 50 50 51 51 issued_store).0 ≡ ok tt
unfolding redeem_screen_token redeem_check redeem_mark fetch execute
first_redeemed = refl

redeemed_alone_example :
    (redeem_screen_token client json_of_two "t0" "10.0.0.2" 60 60 61 61 (record issued_store {
      world =
          (redeem_screen_token client json_of_two "t0" "10.0.0.1" 50 50 51 51 issued_store).1.world;
    })).0
    ≢ ok tt
redeemed_alone_example =
    redeemed_alone client json_of_two view serves "t0" "10.0.0.1" 50 50 51 51 issued_store round
      first_redeemed "10.0.0.2" 60 60 61 61
      (record issued_store {
        world =
            (redeem_screen_token client json_of_two "t0" "10.0.0.1" 50 50 51 51
              issued_store).1.world;
      })
      refl
