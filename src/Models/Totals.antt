-- ===== src/Models/Totals.antt =====
-- internal/models/types.go: the totals over a pod's containers. An int64 is its 64-bit pattern, so that
-- a sum wraps. Parsing and printing a quantity, which go through resource.Quantity and floats, are
-- arguments.
use go_kube_ops_view.Prelude.{
  ℕ, ◌+◌, ◌%◌, String, Bool, Option, none, some, List, [], ◌∷◌, Result, ok, err, panic, ltb, ◌&&◌,
}
use go_kube_ops_view.Models.{ResourceList, Container, Pod}
use go_kube_ops_view.Models.Pods.{read}
use Prim.Native.Nat.{◌^◌}

abbrev pub add64 : ℕ → ℕ → ℕ
add64 a b = (a + b) % 2 ^ 64

-- n > 0
abbrev pub is_positive64 : ℕ → Bool
is_positive64 n = ltb 0 n && ltb n (2 ^ 63)

-- ParseCPU and ParseMemory, an error or the `MilliUnit` (none for nil), and FormatCPU and FormatMemory.
pub record Quantities : Type 0 where
  pub parse_cpu : String → Result String (Option ℕ)
  pub parse_memory : String → Result String (Option ℕ)
  pub format_cpu : ℕ → String
  pub format_memory : ℕ → String

-- The loop of the four `GetTotal…` methods, over one of the two lists and one resource.
unfoldable pub get_total :
    (Container → ResourceList)
    → String
    → (String → Result String (Option ℕ))
    → List Container
    → ℕ
    → Result String ℕ
get_total list_of key parse [] total = ok total
get_total list_of key parse (c ∷ cs) total =
    let rest = λ (n : ℕ). get_total list_of key parse cs n in
    elim (read (list_of c) key) [
      | none ↦ rest total
      | some text ↦ elim (parse text) [
        | panic ↦ panic
        | err e ↦ err e
        | ok parsed ↦ elim parsed [ none ↦ rest total | some n ↦ rest (add64 total n) ]
      ]
    ]

module _ (q : Quantities) where
  abbrev pub get_total_cpu_requests : Pod → Result String ℕ
  get_total_cpu_requests p = get_total (λ c. c.resources.requests) "cpu" q.parse_cpu p.containers 0

  abbrev pub get_total_memory_requests : Pod → Result String ℕ
  get_total_memory_requests p =
      get_total (λ c. c.resources.requests) "memory" q.parse_memory p.containers 0

  abbrev pub get_total_cpu_limits : Pod → Result String ℕ
  get_total_cpu_limits p = get_total (λ c. c.resources.limits) "cpu" q.parse_cpu p.containers 0

  abbrev pub get_total_memory_limits : Pod → Result String ℕ
  get_total_memory_limits p =
      get_total (λ c. c.resources.limits) "memory" q.parse_memory p.containers 0
