-- ===== src/Store/Contract.antt =====
-- What the `Store` interface of internal/store/types.go promises of clusters: the last data and the
-- last status that were set for an ID since it was deleted.
use go_kube_ops_view.Prelude.{
  String, Bool, true, false, Option, none, some, List, [], ◌∷◌, ◌==◌, if◌then◌else◌,
}
use go_kube_ops_view.Models.{ClusterData}
use go_kube_ops_view.Store.{ClusterStatus}

pub record Contents : Type 0 where
  pub data_of : String → Option ClusterData
  pub status_of : String → Option ClusterStatus

pub data Call : Type 0 where
  set_data : String → ClusterData → Call
  set_status : String → ClusterStatus → Call
  delete : String → Call

abbrev pub nothing : Contents
nothing = record { data_of = λ id. none; status_of = λ id. none }

abbrev pub perform : Call → Contents → Contents
perform (set_data id cd) k = record k { data_of = λ j. if id == j then some cd else k.data_of j }
perform (set_status id s) k = record k {
  status_of = λ j. if id == j then some s else k.status_of j;
}
perform (delete id) k = record {
  data_of = λ j. if id == j then none else k.data_of j;
  status_of = λ j. if id == j then none else k.status_of j;
}

abbrev pub perform_all : List Call → Contents → Contents
perform_all [] k = k
perform_all (c ∷ cs) k = perform_all cs (perform c k)

abbrev pub is_present {ℓ} : {A : Type ℓ} → Option A → Bool
is_present none = false
is_present (some a) = true
