-- ===== src/Cluster/Manager/Loops.antt =====
-- The loops of `rediscoverClusters` (internal/cluster/manager.go): what each does to the clients, the
-- engines, the statuses and the surroundings.
use go_kube_ops_view.Prelude.{
  String, ◌≡◌, refl, ap, Bool, true, false, Option, none, some, List, [], ◌∷◌, not, ◌&&◌, arith,
  eq_iff, ◌==◌, if◌then◌else◌, any, Bool-cases, Option-cases, inl, inr,
}
use go_kube_ops_view.Dict
use go_kube_ops_view.Dict.{Dict, get-put, get-remove, get-empty, get-keys, get-keys-none}
use go_kube_ops_view.Cluster.{ClusterConfig}
use go_kube_ops_view.Cluster.Manager.{
  Surroundings, Manager, process_discovered, track_existing, remove_cluster, remove_missing,
}

abbrev pub Discovered : Type 0
Discovered = List (ClusterConfig × Bool)

-- Whether a discovery names the cluster.
abbrev pub wanted : String → Discovered → Bool
wanted id l = any (λ e. e.0.id == id) l

-- The first configuration with the ID that a client could be made for.
abbrev pub first_created : String → Discovered → Option ClusterConfig
first_created id [] = none
first_created id ((c, created) ∷ l) =
    let rest = first_created id l in if created && c.id == id then some c else rest

abbrev pub is_false : Option Bool → Bool
is_false (some false) = true
is_false _ = false

abbrev pub is_some : Option ClusterConfig → Bool
is_some none = false
is_some (some c) = true

module _ (env : Surroundings) where
  tracked :
      (ks : List String) (d : Dict Bool) (id : String)
      → Dict.get (track_existing env ks d) id
        ≡ (if any (λ k. k == id) ks then some false else Dict.get d id)
  unfolding track_existing
  tracked [] d id = refl
  tracked (k ∷ ks) d id = ground (arith, tracked ks (Dict.put d k false) id, get-put d k id false)

  same_client :
      (d : Dict ClusterConfig) (j id : String) → (j == id) ≡ true → Dict.get d j ≡ Dict.get d id
  same_client d j id h = ap (Dict.get d) ((eq_iff j id).0 h)

  abbrev with_client : ClusterConfig → Manager env → Manager env
  with_client c m = record m {
    clients = Dict.put m.clients c.id c;
    engines = Dict.put m.engines c.id tt;
  }

  pub processed_clients :
      (l : Discovered) (e : Dict Bool) (m : Manager env) (id : String)
      → Dict.get (process_discovered env l e m).1.clients id
        ≡ elim (Dict.get m.clients id) [ some c ↦ some c | none ↦ first_created id l ]
  unfolding process_discovered
  processed_clients [] e m id = ground arith
  processed_clients ((c, created) ∷ l) e m id =
      let same = same_client m.clients c.id id in
      elim (Option-cases (Dict.get m.clients c.id)) [
        | inr (x, q) ↦ ground (arith, q, processed_clients l (Dict.put e c.id true) m id, same)
        | inl q ↦ elim (Bool-cases created) [
          | inl t ↦ ground (
            arith,
            q,
            t,
            processed_clients l e (with_client c m) id,
            get-put m.clients c.id id c,
            same,
          )
          | inr t ↦ ground (arith, q, t, processed_clients l e m id)
        ]
      ]

  pub processed_existing :
      (l : Discovered) (e : Dict Bool) (m : Manager env) (id : String)
      → (is_false (Dict.get e id) && not (is_some (Dict.get m.clients id))) ≡ false
      → is_false (Dict.get (process_discovered env l e m).0 id)
        ≡ (is_false (Dict.get e id) && not (wanted id l))
  unfolding process_discovered
  processed_existing [] e m id h = ground arith
  processed_existing ((c, created) ∷ l) e m id h =
      let same = same_client m.clients c.id id in
      elim (Option-cases (Dict.get m.clients c.id)) [
        | inr (x, q) ↦
            let put = get-put e c.id id true in
            ground (
              arith,
              q,
              h,
              put,
              processed_existing l (Dict.put e c.id true) m id (ground (arith, put, h)),
            )
        | inl q ↦ elim (Bool-cases created) [
          | inl t ↦
              let put = get-put m.clients c.id id c in
              ground (
                arith,
                q,
                t,
                h,
                same,
                processed_existing l e (with_client c m) id (ground (arith, put, h, same, q)),
              )
          | inr t ↦ ground (arith, q, t, h, same, processed_existing l e m id h)
        ]
      ]

  same_mark : (d : Dict Bool) (j id : String) → (j == id) ≡ true → Dict.get d j ≡ Dict.get d id
  same_mark d j id h = ap (Dict.get d) ((eq_iff j id).0 h)

  pub removed :
      (ks : List String) (e : Dict Bool) (m : Manager env) (id : String)
      → Dict.get (remove_missing env ks e m).clients id ≡ (
          if any (λ k. k == id) ks && is_false (Dict.get e id) then none else Dict.get m.clients id)
  unfolding remove_missing remove_cluster
  removed [] e m id = refl
  removed (k ∷ ks) e m id =
      let same = same_mark e k id in
      elim (Bool-cases (is_false (Dict.get e k))) [
        | inl q ↦
            ground
              (arith, q, same, removed ks e (remove_cluster env k m) id, get-remove m.clients k id)
        | inr q ↦ ground (arith, q, same, removed ks e m id)
      ]

  pub tracked_false :
      (m : Manager env) (id : String)
      → is_false (Dict.get (track_existing env (Dict.keys m.clients) Dict.empty) id)
        ≡ is_some (Dict.get m.clients id)
  tracked_false m id =
      let t = tracked (Dict.keys m.clients) Dict.empty id in
      elim (Option-cases (Dict.get m.clients id)) [
        | inl e ↦ ground (arith, e, t, get-keys-none m.clients id e, get-empty {V = Bool} id)
        | inr (c, e) ↦ ground (arith, e, t, get-keys m.clients id e)
      ]

  pub processed_engines :
      (l : Discovered) (e : Dict Bool) (m : Manager env) (id : String)
      → Dict.get (process_discovered env l e m).1.engines id ≡ (
          if not (is_some (Dict.get m.clients id)) && is_some (first_created id l)
          then some tt
          else Dict.get m.engines id)
  unfolding process_discovered
  processed_engines [] e m id = ground arith
  processed_engines ((c, created) ∷ l) e m id =
      let same = same_client m.clients c.id id in
      elim (Option-cases (Dict.get m.clients c.id)) [
        | inr (x, q) ↦ ground (arith, q, processed_engines l (Dict.put e c.id true) m id, same)
        | inl q ↦ elim (Bool-cases created) [
          | inl t ↦ ground (
            arith,
            q,
            t,
            processed_engines l e (with_client c m) id,
            get-put m.clients c.id id c,
            get-put m.engines c.id id tt,
            same,
          )
          | inr t ↦ ground (arith, q, t, processed_engines l e m id)
        ]
      ]

  pub processed_rest :
      (l : Discovered) (e : Dict Bool) (m : Manager env)
      → ((process_discovered env l e m).1.world ≡ m.world)
        × ((process_discovered env l e m).1.cluster_statuses ≡ m.cluster_statuses)
  unfolding process_discovered
  processed_rest [] e m = (refl, refl)
  processed_rest ((c, created) ∷ l) e m = elim (Option-cases (Dict.get m.clients c.id)) [
    | inr (x, q) ↦ ground (arith, q, processed_rest l (Dict.put e c.id true) m)
    | inl q ↦ elim (Bool-cases created) [
      | inl t ↦ ground (arith, q, t, processed_rest l e (with_client c m))
      | inr t ↦ ground (arith, q, t, processed_rest l e m)
    ]
  ]

  pub removed_engines :
      (ks : List String) (e : Dict Bool) (m : Manager env) (id : String)
      → Dict.get (remove_missing env ks e m).engines id ≡ (
          if any (λ k. k == id) ks && is_false (Dict.get e id) then none else Dict.get m.engines id)
  unfolding remove_missing remove_cluster
  removed_engines [] e m id = refl
  removed_engines (k ∷ ks) e m id =
      let same = same_mark e k id in
      elim (Bool-cases (is_false (Dict.get e k))) [
        | inl q ↦ ground (
          arith,
          q,
          same,
          removed_engines ks e (remove_cluster env k m) id,
          get-remove m.engines k id,
        )
        | inr q ↦ ground (arith, q, same, removed_engines ks e m id)
      ]

  -- The store after `DeleteCluster` of one ID after another.
  abbrev pub after_deletes : List String → env.World → env.World
  after_deletes [] w = w
  after_deletes (k ∷ ks) w = after_deletes ks (env.delete_cluster k w)

  abbrev pub marked : Dict Bool → List String → List String
  marked e [] = []
  marked e (k ∷ ks) = let rest = marked e ks in if is_false (Dict.get e k) then k ∷ rest else rest

  pub removed_rest :
      (ks : List String) (e : Dict Bool) (m : Manager env)
      → ((remove_missing env ks e m).world ≡ after_deletes (marked e ks) m.world)
        × ((remove_missing env ks e m).cluster_statuses ≡ m.cluster_statuses)
  unfolding remove_missing remove_cluster
  removed_rest [] e m = (refl, refl)
  removed_rest (k ∷ ks) e m = elim (Bool-cases (is_false (Dict.get e k))) [
    | inl q ↦ ground (arith, q, removed_rest ks e (remove_cluster env k m))
    | inr q ↦ ground (arith, q, removed_rest ks e m)
  ]

  pub any-marked :
      (ks : List String) (e : Dict Bool) (id : String)
      → any (λ k. k == id) (marked e ks) ≡ (any (λ k. k == id) ks && is_false (Dict.get e id))
  any-marked [] e id = refl
  any-marked (k ∷ ks) e id =
      ground (arith, any-marked ks e id, same_mark e k id, Bool-cases (is_false (Dict.get e k)))
