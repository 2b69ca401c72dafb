-- ===== src/Store/Redis/Server.antt =====
-- What internal/store/redis.go uses of go-redis: the commands and their replies, and the documented
-- behaviour of the server behind them. `View` is what the server keeps: an entry for each key, with
-- the time after which a reading no longer finds it, and the members of each set.
use go_kube_ops_view.Prelude.{
  ℕ, zero, suc, ◌+◌, ◌≡◌, String, Bool, true, not, ◌&&◌, ◌||◌, Option, none, some, List, [], ◌∷◌,
  any, ◌==◌, ltb, if◌then◌else◌,
}
use go_kube_ops_view.Models.{Time}

-- The expiration of `Set`, and what `TTL` replies: a duration, -1 (the key keeps the one it has, or
-- has none) or -2 (there is no such key).
pub data Ttl : Type 0 where
  lasts : ℕ → Ttl
  keep : Ttl
  no_key : Ttl

pub data Command : Type 0 where
  set : String → String → Ttl → Command
  del : String → Command
  sadd : String → String → Command
  srem : String → String → Command

pub record Entry : Type 0 where
  pub text : String
  pub deadline : Option Time

pub record View : Type 0 where
  pub entry : String → Option Entry
  pub member : String → String → Bool

abbrev pub live : Time → Option Entry → Option Entry
live now none = none
live now (some e) = elim e.deadline [ none ↦ some e | some t ↦ if ltb now t then some e else none ]

abbrev pub text_of : Option Entry → Option String
text_of none = none
text_of (some e) = some e.text

abbrev pub deadline_of : Option Entry → Option Time
deadline_of none = none
deadline_of (some e) = e.deadline

-- SET with PX for a positive duration, with KEEPTTL for -1, and plain for any other.
abbrev pub expiry : Ttl → Time → Option Entry → Option Time
expiry (lasts zero) now old = none
expiry (lasts (suc n)) now old = some (now + suc n)
expiry keep now old = deadline_of (live now old)
expiry no_key now old = none

abbrev pub effect : Time → Command → View → View
effect now (set k v t) w = record w {
  entry = λ j.
      if k == j then some (record { text = v; deadline = expiry t now (w.entry k) }) else w.entry j;
}
effect now (del k) w = record w { entry = λ j. if k == j then none else w.entry j }
effect now (sadd k m) w = record w { member = λ j n. (k == j && m == n) || w.member j n }
effect now (srem k m) w = record w { member = λ j n. not (k == j && m == n) && w.member j n }

abbrev pub effects : Time → List Command → View → View
effects now [] w = w
effects now (c ∷ cs) w = effects now cs (effect now c w)

-- Some of the commands, in their order: those that a failed `send` did reach the server with.
pub data Part : List Command → List Command → Type 0 where
  done : Part [] []
  lost : {c : Command} {ds cs : List Command} → Part ds cs → Part ds (c ∷ cs)
  sent : {c : Command} {ds cs : List Command} → Part ds cs → Part (c ∷ ds) (c ∷ cs)

-- The client's calls. `send` is one command, or a pipeline of several: false if one of them failed.
-- A reading replies `none` if it failed, and `some none` for `redis.Nil`.
pub record Client : Type 1 where
  pub World : Type 0
  pub send : List Command → Time → World → Bool × World
  pub get : String → Time → World → Option (Option String) × World
  pub ttl : String → Time → World → Ttl × World
  pub smembers : String → World → Option (List String) × World
  pub keys : String → Time → World → Option (List String) × World
  pub publish : String → String → World → Bool × World
  pub ping : World → Bool × World
  pub flush_all : World → Bool × World
  pub close : World → Bool × World

-- What the documentation of Redis says of them. `view` is what the server keeps in a world.
pub record Serves (c : Client) (view : c.World → View) : Type 0 where
  pub send_lem :
      (cs : List Command) (now : Time) (w : c.World)
      → (c.send cs now w).0 ≡ true
      → view (c.send cs now w).1 ≡ effects now cs (view w)
  pub send_any :
      (cs : List Command) (now : Time) (w : c.World)
      → (ds : List Command) × Part ds cs × (view (c.send cs now w).1 ≡ effects now ds (view w))
  pub get_lem :
      (k : String) (now : Time) (w : c.World) {r : Option String}
      → (c.get k now w).0 ≡ some r
      → r ≡ text_of (live now ((view w).entry k))
  pub get_kept : (k : String) (now : Time) (w : c.World) → view (c.get k now w).1 ≡ view w
  pub ttl_kept : (k : String) (now : Time) (w : c.World) → view (c.ttl k now w).1 ≡ view w
  pub smembers_lem :
      (k : String) (w : c.World) {r : List String}
      → (c.smembers k w).0 ≡ some r
      → (m : String) → any (λ n. n == m) r ≡ (view w).member k m
  pub smembers_kept : (k : String) (w : c.World) → view (c.smembers k w).1 ≡ view w
  pub publish_kept : (k t : String) (w : c.World) → view (c.publish k t w).1 ≡ view w
