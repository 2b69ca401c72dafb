-- ===== src/Delta.antt =====
-- internal/delta: the changes between two states of a cluster. A change's key is a Go slice, and
-- what `append` does to such slices decides which keys a delta ends up with: the algorithm is
-- written once, over any kind of key, in Delta/Calculator.antt.
pub mod Slices
pub mod Calculator
pub mod Patch
pub mod Optimize
pub mod Previous
pub mod Integration
use go_kube_ops_view.Prelude.{String, List}
use go_kube_ops_view.Json.{Json}

-- `DiffStanza`, with the kind of its key.
pub record DiffStanza (K : Type 0) : Type 0 where
  pub key : K
  pub value : Json

-- A kind of keys: the state that they live in, the key `[]interface{}{}`, `append`, and what a key
-- reads as in the end.
pub record Keys : Type 1 where
  pub Key : Type 0
  pub Heap : Type 0
  pub root : Key
  pub append : Key → String → Heap → Key × Heap
  pub read : Heap → Key → List String
