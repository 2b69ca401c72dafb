-- ===== src/Cluster/QueryEngine.antt =====
-- internal/cluster/query_engine.go: the engine, one query of a cluster, and its retries. The store, the
-- publisher and the metrics are the engine's surroundings: their errors are logged and change nothing
-- here. A client is its configuration; the goroutines that poll are not modelled.
pub mod Objects
pub mod Convert
pub mod Collect
pub mod Retries
use go_kube_ops_view.Prelude.{
  ℕ, zero, suc, String, Bool, true, false, Option, none, some, List, [], ◌∷◌, Result, ok, err,
  panic, ◌==◌, ◌+◌, nat_eq, if◌then◌else◌, length, ◌-◌,
}
use go_kube_ops_view.Dict
use go_kube_ops_view.Dict.{Dict}
use go_kube_ops_view.Models.{Time, ClusterData}
use go_kube_ops_view.Models.Totals.{Quantities}
use go_kube_ops_view.Cluster.{ClusterConfig, ClusterStatus}
use go_kube_ops_view.Cluster.Kubernetes.{KubeNode, KubePod, NodeMetrics, PodMetrics}
use go_kube_ops_view.Cluster.QueryEngine.Convert.{convert_to_cluster_data}

-- What the five channels of `queryCluster` bring: one message from each of the four goroutines, or an
-- error instead, and the end of the context with its error.
pub data Message : Type 0 where
  got_nodes : List KubeNode → Message
  got_pods : List KubePod → Message
  got_node_metrics : List NodeMetrics → Message
  got_pod_metrics : List PodMetrics → Message
  failed : String → Message
  context_done : String → Message

pub record Collected : Type 0 where
  pub nodes : Option (List KubeNode)
  pub pods : Option (List KubePod)
  pub node_metrics : List NodeMetrics
  pub pod_metrics : List PodMetrics

abbrev pub nothing_yet : Collected
nothing_yet = record { nodes = none; pods = none; node_metrics = []; pod_metrics = [] }

unfoldable pub receive : Message → Collected → Result String Collected
receive (got_nodes ns) c = ok (record c { nodes = some ns })
receive (got_pods ps) c = ok (record c { pods = some ps })
receive (got_node_metrics ms) c = ok (record c { node_metrics = ms })
receive (got_pod_metrics ms) c = ok (record c { pod_metrics = ms })
receive (failed e) c = err e
receive (context_done e) c = err e

-- The loop of a number of receives, over the messages in the order in which `select` takes them;
-- `none` if it waits for ever.
unfoldable pub collect : ℕ → List Message → Collected → Option (Result String Collected)
collect zero ms c = some (ok c)
collect (suc k) [] c = none
collect (suc k) (m ∷ ms) c = elim (receive m c) [
  | panic ↦ some panic
  | err e ↦ some (err e)
  | ok c' ↦ collect k ms c'
]

-- The pods in a phase.
unfoldable pub count_phase : String → List KubePod → ℕ
count_phase phase [] = 0
count_phase phase (p ∷ ps) =
    let rest = count_phase phase ps in if p.phase == phase then suc rest else rest

pub record Services : Type 1 where
  pub World : Type 0
  pub now : World → Time × World
  pub set_cluster_data : String → ClusterData → World → World
  pub set_cluster_status : String → ClusterStatus → World → World
  pub publish_cluster_update : String → ClusterData → World → World
  pub publish_cluster_status : String → ClusterStatus → World → World
  pub record_cluster_query : String → ℕ → Option String → World → World
  -- nodes, pods, and the running, pending and failed pods
  pub update_cluster_stats : String → ℕ → ℕ → ℕ → ℕ → ℕ → World → World
  -- waits for the retry delay: true if the context ended first
  pub cancelled_in_wait : World → Bool × World

module _ (env : Services) where
  pub record QueryEngine : Type 0 where
    pub clients : Dict ClusterConfig
    pub has_publisher : Bool
    pub world : env.World

  abbrev pub add_cluster : ClusterConfig → QueryEngine → QueryEngine
  add_cluster client e = record e { clients = Dict.put e.clients client.id client }

  abbrev pub remove_cluster : String → QueryEngine → QueryEngine
  remove_cluster id e = record e { clients = Dict.remove e.clients id }

  abbrev pub get_all_cluster_ids : QueryEngine → List String
  get_all_cluster_ids e = Dict.keys e.clients

  unfoldable pub update_cluster_status : String → ClusterStatus → QueryEngine → QueryEngine
  update_cluster_status id s e =
      let stored = env.set_cluster_status id s e.world in
      record e {
        world = if e.has_publisher then env.publish_cluster_status id s stored else stored;
      }

  -- What `queryCluster` does once all its messages are there; `panic` if a list of nodes or pods is nil
  -- or the conversion panics.
  unfoldable pub finish_query :
      Quantities
      → ClusterConfig
      → Time
      → Collected
      → QueryEngine
      → Result String (Unit {0}) × QueryEngine
  finish_query q client start c e = elim c.nodes [
    | none ↦ (panic, e)
    | some ns ↦ elim c.pods [
      | none ↦ (panic, e)
      | some ps ↦
          let (now, w) = env.now e.world in
          elim (convert_to_cluster_data q client.id client.api_server ns ps c.node_metrics
            c.pod_metrics now) [
              | none ↦ (panic, record e { world = w })
              | some cd ↦
                  let stored = env.set_cluster_data client.id cd w in
                  let published =
                    if e.has_publisher
                    then env.publish_cluster_update client.id cd stored
                    else stored in
                  let (end, w') = env.now published in
                  let recorded = env.record_cluster_query client.id (end - start) none w' in
                  (
                    ok tt,
                    record e {
                      world =
                          env.update_cluster_stats client.id (length ns) (length ps)
                            (count_phase "Running" ps) (count_phase "Pending" ps)
                            (count_phase "Failed" ps) recorded;
                    },
                  )
            ]
    ]
  ]

  -- `none` if the query waits for ever.
  unfoldable pub query_cluster :
      Quantities
      → ClusterConfig
      → List Message
      → QueryEngine
      → Option (Result String (Unit {0}) × QueryEngine)
  query_cluster q client ms e =
      let (start, w) = env.now e.world in
      let started : QueryEngine = record e { world = w } in
      elim (collect 4 ms nothing_yet) [
        | none ↦ none
        | some r ↦ elim r [
          | panic ↦ some (panic, started)
          | err x ↦ some (err x, started)
          | ok c ↦ some (finish_query q client start c started)
        ]
      ]

  abbrev pub available : String → Time → ClusterStatus
  available id now = record {
    id = id;
    available = true;
    last_seen = now;
    error = "";
    version = "";
    node_count = 0;
  }

  -- The rounds of `queryClusterWithRetry` from one attempt on; `attempt` is the query, by its number.
  unfoldable pub attempts :
      (ℕ → QueryEngine → Option String × QueryEngine)
      → String
      → ℕ
      → ℕ
      → String
      → QueryEngine
      → QueryEngine
  attempts attempt id zero n last e =
      let (now, w) = env.now e.world in
      update_cluster_status id (record (available id now) { available = false; error = last })
        (record e { world = w })
  attempts attempt id (suc k) n last e =
      let waited = if nat_eq n 0 then (false, e.world) else env.cancelled_in_wait e.world in
      let done = attempt n (record e { world = waited.1 }) in
      if waited.0 then record e { world = waited.1 } else elim done.0 [
        | none ↦
            let (now, w) = env.now done.1.world in
            update_cluster_status id (available id now) (record done.1 { world = w })
        | some x ↦
            attempts attempt id k (suc n) x
              (record done.1 { world = env.record_cluster_query id 0 (some x) done.1.world })
      ]

  abbrev pub query_cluster_with_retry :
      (ℕ → QueryEngine → Option String × QueryEngine) → String → QueryEngine → QueryEngine
  query_cluster_with_retry attempt id e = attempts attempt id 3 0 "" e
