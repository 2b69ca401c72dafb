-- ===== src/Store/Redis/Holds.antt =====
-- What the server keeps of the clusters (internal/store/redis.go), and which commands keep it.
use go_kube_ops_view.Prelude.{
  String, ◌≡◌, refl, Option, none, some, List, [], ◌∷◌, ◌==◌, inl, inr, Bool-cases, All, arith,
  eq_iff,
}
use go_kube_ops_view.Models.{Time, ClusterData}
use go_kube_ops_view.Store.{ClusterStatus}
use go_kube_ops_view.Store.Contract.{Contents, set_data, set_status, delete, perform, is_present}
use go_kube_ops_view.Store.Redis.Server.{
  Command, set, del, sadd, srem, lasts, Part, done, lost, sent, View, Entry, effect, effects,
}
use go_kube_ops_view.Store.Redis.Keys.{
  cluster_data_key_eq, cluster_status_key_eq, data-ne-status, status-ne-data, token-ne-data,
  token-ne-status,
}
use go_kube_ops_view.Store.Redis.{
  Codec, Codecs, cluster_data_key, cluster_status_key, token_key, cluster_set_key,
}

-- The text of a value, without a deadline, or nothing.
abbrev pub Kept : {A : Type 0} → Codec A → Option A → Option Entry → Type 0
Kept codec none e = e ≡ none
Kept codec (some a) e =
    (text : String) × (codec.encode a ≡ some text)
    × (e ≡ some (record { text = text; deadline = none }))

pub record Holds (json : Codecs) (v : View) (k : Contents) : Type 0 where
  pub data_kept :
      (id : String) → Kept json.cluster_data (k.data_of id) (v.entry (cluster_data_key id))
  pub status_kept :
      (id : String) → Kept json.cluster_status (k.status_of id) (v.entry (cluster_status_key id))
  pub members_kept : (id : String) → v.member cluster_set_key id ≡ is_present (k.data_of id)

module _ (json : Codecs) (v : View) (k : Contents) (now : Time) (h : Holds json v k) where
  pub set_data-Holds :
      (id : String) (cd : ClusterData) (text : String)
      → json.cluster_data.encode cd ≡ some text
      → Holds json
          (effects now (set (cluster_data_key id) text (lasts 0) ∷ sadd cluster_set_key id ∷ []) v)
          (perform (set_data id cd) k)
  set_data-Holds id cd text e = record {
    data_kept = λ j. elim (Bool-cases (id == j)) [
      | inl q ↦ rw (cluster_data_key_eq id j, q) (text, e, refl)
      | inr q ↦ rw (cluster_data_key_eq id j, q) (h.data_kept j)
    ];
    status_kept = λ j. rw (data-ne-status id j) (h.status_kept j);
    members_kept = λ j. ground (arith, h.members_kept j, eq_iff cluster_set_key cluster_set_key);
  }

  pub set_status-Holds :
      (id : String) (s : ClusterStatus) (text : String)
      → json.cluster_status.encode s ≡ some text
      → Holds json
          (effects now (set (cluster_status_key id) text (lasts 0) ∷ []) v)
          (perform (set_status id s) k)
  set_status-Holds id s text e = record {
    data_kept = λ j. rw (status-ne-data id j) (h.data_kept j);
    status_kept = λ j. elim (Bool-cases (id == j)) [
      | inl q ↦ rw (cluster_status_key_eq id j, q) (text, e, refl)
      | inr q ↦ rw (cluster_status_key_eq id j, q) (h.status_kept j)
    ];
    members_kept = h.members_kept;
  }

  pub delete-Holds :
      (id : String)
      → Holds json
          (effects now
            (del (cluster_data_key id) ∷ del (cluster_status_key id) ∷ srem cluster_set_key id ∷ [])
            v)
          (perform (delete id) k)
  delete-Holds id = record {
    data_kept = λ j. elim (Bool-cases (id == j)) [
      | inl q ↦ rw (status-ne-data id j, cluster_data_key_eq id j, q) refl
      | inr q ↦ rw (status-ne-data id j, cluster_data_key_eq id j, q) (h.data_kept j)
    ];
    status_kept = λ j. elim (Bool-cases (id == j)) [
      | inl q ↦ rw (cluster_status_key_eq id j, q) refl
      | inr q ↦ rw (cluster_status_key_eq id j, data-ne-status id j, q) (h.status_kept j)
    ];
    members_kept = λ j. ground (arith, h.members_kept j, eq_iff cluster_set_key cluster_set_key);
  }

-- A command on the key of a token.
abbrev pub OnToken : Command → Type 0
OnToken (set key v t) = (token : String) × (key ≡ token_key token)
OnToken (del key) = (token : String) × (key ≡ token_key token)
OnToken _ = ⊥

effect-Holds :
    (json : Codecs) (k : Contents) (now : Time) (v : View) (c : Command)
    → OnToken c
    → Holds json v k
    → Holds json (effect now c v) k
effect-Holds json k now v (set key text t) (token, e) h = record {
  data_kept = λ j. rw (e, token-ne-data token j) (h.data_kept j);
  status_kept = λ j. rw (e, token-ne-status token j) (h.status_kept j);
  members_kept = h.members_kept;
}
effect-Holds json k now v (del key) (token, e) h = record {
  data_kept = λ j. rw (e, token-ne-data token j) (h.data_kept j);
  status_kept = λ j. rw (e, token-ne-status token j) (h.status_kept j);
  members_kept = h.members_kept;
}
effect-Holds json k now v (sadd _ _) o h = absurd o
effect-Holds json k now v (srem _ _) o h = absurd o

-- Whatever part of some commands on tokens reaches the server, the clusters stay as they are.
pub effects-Holds :
    (json : Codecs) (k : Contents) (now : Time) (v : View) {ds cs : List Command}
    → Part ds cs
    → All OnToken cs
    → Holds json v k
    → Holds json (effects now ds v) k
effects-Holds json k now v done o h = h
effects-Holds json k now v (lost p) o h = effects-Holds json k now v p o.1 h
effects-Holds json k now v (sent {c} p) o h =
    effects-Holds json k now (effect now c v) p o.1 (effect-Holds json k now v c o.0 h)
