-- ===== src/Store/Memory/Tokens/Frame.antt =====
-- The calls on a `MemoryStore` (internal/store/memory.go) that are not about tokens leave them alone.
use go_kube_ops_view.Prelude.{ℕ, String, ◌≡◌, refl, Option, none, some, arith}
use go_kube_ops_view.Models.{Time, ClusterData}
use go_kube_ops_view.Store.{ClusterStatus, Payload}
use go_kube_ops_view.Store.Memory.{
  MemoryStore, set_cluster_data, set_cluster_status, delete_cluster, publish_event, subscribe,
  unsubscribe, close,
}

pub tokens-set_cluster_data :
    (id : String) (cd : Option ClusterData) (m : MemoryStore)
    → (set_cluster_data id cd m).1.tokens ≡ m.tokens
unfolding set_cluster_data
tokens-set_cluster_data id none m = refl
tokens-set_cluster_data id (some cd) m = ground arith

pub tokens-set_cluster_status :
    (id : String) (s : Option ClusterStatus) (m : MemoryStore)
    → (set_cluster_status id s m).1.tokens ≡ m.tokens
unfolding set_cluster_status
tokens-set_cluster_status id none m = refl
tokens-set_cluster_status id (some s) m = refl

pub tokens-delete_cluster :
    (id : String) (m : MemoryStore) → (delete_cluster id m).1.tokens ≡ m.tokens
unfolding delete_cluster
tokens-delete_cluster id m = refl

pub tokens-publish_event :
    (kind : String) (payload : Payload) (now : Time) (m : MemoryStore)
    → (publish_event kind payload now m).1.tokens ≡ m.tokens
unfolding publish_event
tokens-publish_event kind payload now m = ground arith

pub tokens-subscribe : (m : MemoryStore) → (subscribe m).1.tokens ≡ m.tokens
unfolding subscribe
tokens-subscribe m = ground arith

pub tokens-unsubscribe : (id : ℕ) (m : MemoryStore) → (unsubscribe id m).1.tokens ≡ m.tokens
unfolding unsubscribe
tokens-unsubscribe id m = ground arith

pub tokens-close : (m : MemoryStore) → (close m).1.tokens ≡ m.tokens
unfolding close
tokens-close m = ground arith
