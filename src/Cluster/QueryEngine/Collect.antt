-- ===== src/Cluster/QueryEngine/Collect.antt =====
-- The messages of a query's goroutines come in any order (internal/cluster/query_engine.go).
use go_kube_ops_view.Prelude.{
  ℕ, suc, String, ◌≡◌, refl, sym, ap, ◌∙◌, Option, none, some, List, [], ◌∷◌, Result, ok, err,
  length, All, inl, inr, ◌⊎◌, ◌↔◌, none≢some,
}
use go_kube_ops_view.Cluster.Kubernetes.{KubeNode, KubePod, NodeMetrics, PodMetrics}
use go_kube_ops_view.Cluster.QueryEngine.{
  Message, got_nodes, got_pods, got_node_metrics, got_pod_metrics, failed, context_done, Collected,
  nothing_yet, receive, collect,
}

-- One list is another with a value put in somewhere.
pub data Inserted {ℓ} {A : Type ℓ} (a : A) : List A → List A → Type ℓ where
  first : {xs : List A} → Inserted a xs (a ∷ xs)
  later : {x : A} {xs ys : List A} → Inserted a xs ys → Inserted a (x ∷ xs) (x ∷ ys)

-- What is filled in by a message, if it is no error.
abbrev fill : Message → Collected → Collected
fill (got_nodes ns) c = record c { nodes = some ns }
fill (got_pods ps) c = record c { pods = some ps }
fill (got_node_metrics ms) c = record c { node_metrics = ms }
fill (got_pod_metrics ms) c = record c { pod_metrics = ms }
fill (failed e) c = c
fill (context_done e) c = c

abbrev fill_all : List Message → Collected → Collected
fill_all [] c = c
fill_all (m ∷ ms) c = fill_all ms (fill m c)

abbrev pub failure : Message → Option String
failure (failed e) = some e
failure (context_done e) = some e
failure _ = none

abbrev or_else : Option String → Option String → Option String
or_else (some e) o = some e
or_else none o = o

or_else-none : (o o' : Option String) → (or_else o o' ≡ none) ↔ ((o ≡ none) × (o' ≡ none))
or_else-none none o' = (λ h. (refl, h), λ h. h.1)
or_else-none (some e) o' = (λ h. absurd (none≢some (sym h)), λ h. h.0)

-- The error that comes first.
abbrev pub first_failure : List Message → Option String
first_failure [] = none
first_failure (m ∷ ms) = or_else (failure m) (first_failure ms)

abbrev pub outcome : Option String → Collected → Result String Collected
outcome none c = ok c
outcome (some e) c = err e

collect-outcome :
    (ms : List Message) (c : Collected)
    → collect (length ms) ms c ≡ some (outcome (first_failure ms) (fill_all ms c))
unfolding collect receive
collect-outcome [] c = refl
collect-outcome (got_nodes ns ∷ ms) c = collect-outcome ms (record c { nodes = some ns })
collect-outcome (got_pods ps ∷ ms) c = collect-outcome ms (record c { pods = some ps })
collect-outcome (got_node_metrics ns ∷ ms) c = collect-outcome ms (record c { node_metrics = ns })
collect-outcome (got_pod_metrics ps ∷ ms) c = collect-outcome ms (record c { pod_metrics = ps })
collect-outcome (failed e ∷ ms) c = refl
collect-outcome (context_done e ∷ ms) c = refl

abbrev Commutes : Message → Message → Type 0
Commutes m n = (c : Collected) → fill m (fill n c) ≡ fill n (fill m c)

All-Inserted {ℓ κ} :
    {A : Type ℓ} (P : A → Type κ) {a : A} {xs ys : List A}
    → Inserted a xs ys
    → P a
    → All P xs
    → All P ys
All-Inserted P first p h = (p, h)
All-Inserted P (later i) p h = (h.0, All-Inserted P i p h.1)

length-Inserted {ℓ} :
    {A : Type ℓ} {a : A} {xs ys : List A} → Inserted a xs ys → length ys ≡ suc (length xs)
length-Inserted first = refl
length-Inserted (later i) = ap suc (length-Inserted i)

fill_all-Inserted :
    {m : Message} {xs ys : List Message}
    → Inserted m xs ys
    → All (Commutes m) xs
    → (c : Collected) → fill_all ys c ≡ fill_all xs (fill m c)
fill_all-Inserted first h c = refl
fill_all-Inserted {m} (later {x} {xs} i) h c =
    fill_all-Inserted i h.1 (fill x c) ∙ ap (fill_all xs) (h.0 c)

first_failure-Inserted :
    {m : Message} {xs ys : List Message}
    → Inserted m xs ys
    → (first_failure ys ≡ none) ↔ ((failure m ≡ none) × (first_failure xs ≡ none))
first_failure-Inserted {m} {xs} first = or_else-none (failure m) (first_failure xs)
first_failure-Inserted {m} (later {x} {xs} {ys} i) =
    let ih = first_failure-Inserted i in
    let here = or_else-none (failure x) (first_failure ys) in
    let there = or_else-none (failure x) (first_failure xs) in
    (
      λ h. let s = here.0 h in ((ih.0 s.1).0, there.1 (s.0, (ih.0 s.1).1)),
      λ h. let s = there.0 h.1 in here.1 (s.0, ih.1 (h.0, s.1)),
    )

-- What each goroutine sends: its list, or the error of its call.
abbrev pub nodes_message : String ⊎ List KubeNode → Message
nodes_message (inl e) = failed e
nodes_message (inr ns) = got_nodes ns

abbrev pub pods_message : String ⊎ List KubePod → Message
pods_message (inl e) = failed e
pods_message (inr ps) = got_pods ps

abbrev pub list_of {ℓ} : {A : Type ℓ} → String ⊎ A → Option A
list_of (inl e) = none
list_of (inr a) = some a

nodes_pods_commute :
    (n : String ⊎ List KubeNode) (p : String ⊎ List KubePod)
    → Commutes (pods_message p) (nodes_message n)
nodes_pods_commute (inl e) (inl f) c = refl
nodes_pods_commute (inl e) (inr ps) c = refl
nodes_pods_commute (inr ns) (inl f) c = refl
nodes_pods_commute (inr ns) (inr ps) c = refl

node_metrics_commute :
    (nm : List NodeMetrics) (n : String ⊎ List KubeNode)
    → Commutes (got_node_metrics nm) (nodes_message n)
node_metrics_commute nm (inl e) c = refl
node_metrics_commute nm (inr ns) c = refl

node_metrics_commute' :
    (nm : List NodeMetrics) (p : String ⊎ List KubePod)
    → Commutes (got_node_metrics nm) (pods_message p)
node_metrics_commute' nm (inl e) c = refl
node_metrics_commute' nm (inr ps) c = refl

pod_metrics_commute :
    (pm : List PodMetrics) (n : String ⊎ List KubeNode)
    → Commutes (got_pod_metrics pm) (nodes_message n)
pod_metrics_commute pm (inl e) c = refl
pod_metrics_commute pm (inr ns) c = refl

pod_metrics_commute' :
    (pm : List PodMetrics) (p : String ⊎ List KubePod)
    → Commutes (got_pod_metrics pm) (pods_message p)
pod_metrics_commute' pm (inl e) c = refl
pod_metrics_commute' pm (inr ps) c = refl

filled_in_order :
    (n : String ⊎ List KubeNode) (p : String ⊎ List KubePod) (nm : List NodeMetrics)
    (pm : List PodMetrics)
    → fill
        (nodes_message n)
        (fill (pods_message p) (fill (got_node_metrics nm) (fill (got_pod_metrics pm) nothing_yet)))
      ≡ record { nodes = list_of n; pods = list_of p; node_metrics = nm; pod_metrics = pm }
filled_in_order (inl e) (inl f) nm pm = refl
filled_in_order (inl e) (inr ps) nm pm = refl
filled_in_order (inr ns) (inl f) nm pm = refl
filled_in_order (inr ns) (inr ps) nm pm = refl

-- In whichever order the four messages come, the query gathers the same nodes, pods and metrics if both
-- lists came; otherwise it fails with the error that comes first.
pub collect_any_order :
    (n : String ⊎ List KubeNode) (p : String ⊎ List KubePod) (nm : List NodeMetrics)
    (pm : List PodMetrics) {a b ms : List Message}
    → Inserted (pods_message p) (nodes_message n ∷ []) a
    → Inserted (got_node_metrics nm) a b
    → Inserted (got_pod_metrics pm) b ms
    → (collect 4 ms nothing_yet
        ≡ some (
            outcome (first_failure ms) (record {
              nodes = list_of n;
              pods = list_of p;
              node_metrics = nm;
              pod_metrics = pm;
            })))
      × ((first_failure ms ≡ none)
          ↔ ((failure (nodes_message n) ≡ none) × (failure (pods_message p) ≡ none)))
collect_any_order n p nm pm {a} {b} {ms} i j k =
    let four : length ms ≡ 4 =
      length-Inserted k ∙ ap suc (length-Inserted j ∙ ap suc (length-Inserted i)) in
    let from_a =
      All-Inserted (Commutes (got_node_metrics nm)) i (node_metrics_commute' nm p)
        (node_metrics_commute nm n, tt) in
    let from_b =
      All-Inserted (Commutes (got_pod_metrics pm)) j (λ c. refl)
        (All-Inserted (Commutes (got_pod_metrics pm)) i (pod_metrics_commute' pm p)
          (pod_metrics_commute pm n, tt)) in
    let filled =
      fill_all-Inserted k from_b nothing_yet
      ∙ fill_all-Inserted j from_a (fill (got_pod_metrics pm) nothing_yet)
      ∙ fill_all-Inserted i (nodes_pods_commute n p, tt)
          (fill (got_node_metrics nm) (fill (got_pod_metrics pm) nothing_yet))
      ∙ filled_in_order n p nm pm in
    let fa = first_failure-Inserted i in
    let fb = first_failure-Inserted j in
    let fc = first_failure-Inserted k in
    (
      ap (λ (l : ℕ). collect l ms nothing_yet) (sym four)
          ∙ collect-outcome ms nothing_yet
          ∙ ap (λ c. some (outcome (first_failure ms) c)) filled,
      (
        λ h.
            let x = fa.0 (fb.0 (fc.0 h).1).1 in
            (((or_else-none (failure (nodes_message n)) none).0 x.1).0, x.0),
        λ h.
            let x = (or_else-none (failure (nodes_message n)) none).1 (h.0, refl) in
            fc.1 (refl, fb.1 (refl, fa.1 (h.1, x))),
      ),
    )
