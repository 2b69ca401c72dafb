-- ===== src/Tests/RedisServer.antt =====
-- A Redis server that always answers.
use go_kube_ops_view.Prelude.{
  String, ◌≡◌, refl, ap, ◌∙◌, Bool, true, not, ◌&&◌, Option, some, List, [], ◌∷◌, any, ◌==◌,
  if◌then◌else◌, arith, eq_iff,
}
use mathlib.Core.Path.{fun_ext}
use go_kube_ops_view.Models.{Time}
use go_kube_ops_view.Store.Redis.Server.{
  Client, Command, set, del, sadd, srem, keep, Part, done, sent, Entry, View, Serves, effect,
  effects, live, text_of,
}

-- The entries, and the members of all sets, each with the key of its set.
pub record Held : Type 0 where
  pub entry : String → Option Entry
  pub members : List (String × String)

abbrev pub is_member : List (String × String) → String → String → Bool
is_member l k m = any (λ p. p.0 == k && p.1 == m) l

abbrev pub without : String → String → List (String × String) → List (String × String)
without k m [] = []
without k m (p ∷ l) = let rest = without k m l in if p.0 == k && p.1 == m then rest else p ∷ rest

abbrev pub members_of : String → List (String × String) → List String
members_of k [] = []
members_of k (p ∷ l) = let rest = members_of k l in if p.0 == k then p.1 ∷ rest else rest

abbrev pub view : Held → View
view w = record { entry = w.entry; member = is_member w.members }

abbrev pub served : Time → Command → Held → Held
served now (sadd k m) w = record w { members = (k, m) ∷ w.members }
served now (srem k m) w = record w { members = without k m w.members }
served now c w = record w { entry = (effect now c (view w)).entry }

abbrev pub served_all : Time → List Command → Held → Held
served_all now [] w = w
served_all now (c ∷ cs) w = served_all now cs (served now c w)

abbrev pub client : Client
client = record {
  World = Held;
  send = λ cs now w. (true, served_all now cs w);
  get = λ k now w. (some (text_of (live now (w.entry k))), w);
  ttl = λ k now w. (keep, w);
  smembers = λ k w. (some (members_of k w.members), w);
  keys = λ k now w. (some [], w);
  publish = λ k t w. (true, w);
  ping = λ w. (true, w);
  flush_all = λ w. (true, w);
  close = λ w. (true, w);
}

is_member-without :
    (k m j n : String) (l : List (String × String))
    → is_member (without k m l) j n ≡ (not (k == j && m == n) && is_member l j n)
is_member-without k m j n [] = ground arith
is_member-without k m j n (p ∷ l) = ground (
  arith,
  is_member-without k m j n l,
  eq_iff p.0 k,
  eq_iff p.1 m,
  eq_iff p.0 j,
  eq_iff p.1 n,
  eq_iff k j,
  eq_iff m n,
)

members_of_lem :
    (k m : String) (l : List (String × String))
    → any (λ n. n == m) (members_of k l) ≡ is_member l k m
members_of_lem k m [] = refl
members_of_lem k m (p ∷ l) = ground (arith, members_of_lem k m l)

view-served : (now : Time) (c : Command) (w : Held) → view (served now c w) ≡ effect now c (view w)
view-served now (set k v t) w = refl
view-served now (del k) w = refl
view-served now (sadd k m) w = refl
view-served now (srem k m) w =
    ap (λ f. record { entry = w.entry; member = f })
      (fun_ext (λ j. fun_ext (λ n. is_member-without k m j n w.members)))

view-served_all :
    (now : Time) (cs : List Command) (w : Held)
    → view (served_all now cs w) ≡ effects now cs (view w)
view-served_all now [] w = refl
view-served_all now (c ∷ cs) w =
    view-served_all now cs (served now c w) ∙ ap (effects now cs) (view-served now c w)

whole : (cs : List Command) → Part cs cs
whole [] = done
whole (c ∷ cs) = sent (whole cs)

same_reply : {a b : Option String} → some a ≡ some b → b ≡ a
same_reply h = cc

served_members :
    (k : String) (w : Held) (m : String) {r : List String}
    → some (members_of k w.members) ≡ some r
    → any (λ n. n == m) r ≡ is_member w.members k m
served_members k w m h = cc (h, members_of_lem k m w.members)

pub serves : Serves client view
serves = record {
  send_lem = λ cs now w h. view-served_all now cs w;
  send_any = λ cs now w. (cs, whole cs, view-served_all now cs w);
  get_lem = λ k now w h. same_reply h;
  get_kept = λ k now w. refl;
  ttl_kept = λ k now w. refl;
  smembers_lem = λ k w h m. served_members k w m h;
  smembers_kept = λ k w. refl;
  publish_kept = λ k t w. refl;
}
