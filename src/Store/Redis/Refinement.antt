-- ===== src/Store/Redis/Refinement.antt =====
-- Where Redis behaves as documented, internal/store/redis.go keeps the contract of the stores.
use go_kube_ops_view.Prelude.{
  String, ◌≡◌, refl, ap, ◌∙◌, Option, none, some, List, [], ◌∷◌, ◌==◌, inl, inr, ◌⊎◌, Result, ok,
  err, Option-cases, any,
}
use go_kube_ops_view.Models.{Time}
use go_kube_ops_view.Store.{cluster_not_found, token_not_found}
use go_kube_ops_view.Store.Contract.{
  Contents, Call, set_data, set_status, delete, perform, is_present,
}
use go_kube_ops_view.Store.Redis.Server.{Client, del, View, Serves, live, text_of}
use go_kube_ops_view.Store.Redis.Holds.{Kept, set_data-Holds, set_status-Holds, delete-Holds}
use go_kube_ops_view.Store.Redis.{
  Codec, Codecs, RedisError, known, command_failed, marshal_failed, unmarshal_failed,
  cluster_data_key, cluster_status_key, token_key, cluster_set_key, fetch, get_cluster_data,
  get_cluster_status, set_cluster_data, set_cluster_status, delete_cluster, get_cluster_ids,
}
use go_kube_ops_view.Store.Redis.Tokens.{validate_screen_token, delete_screen_token}
use go_kube_ops_view.Store.Redis.Runs.{
  Store, Op, call, create, redeem, validate, revoke, publish, called, step, run, Succeeds,
  AllSucceed, promised, promised_all,
}
use go_kube_ops_view.Store.Redis.Frame.{
  HoldsIn, fetch-HoldsIn, execute_ok, execute-HoldsIn, create-HoldsIn, redeem-HoldsIn,
  publish-HoldsIn,
}

-- What a reading of a value that was set returns, by the codec.
abbrev pub Answer : {A : Type 0} → Codec A → Option A → Result RedisError A
Answer codec none = err (known cluster_not_found)
Answer codec (some a) = elim (codec.encode a) [
  | none ↦ err marshal_failed
  | some text ↦ elim (codec.decode text) [ none ↦ err unmarshal_failed | some b ↦ ok b ]
]

module _ (c : Client) (json : Codecs) (view : c.World → View) (serves : Serves c view) where
  called-HoldsIn :
      (q : Call) (at : Time) (r : Store c json) (k : Contents)
      → (called c json q at r).0 ≡ ok tt
      → HoldsIn c json view serves r k
      → HoldsIn c json view serves (called c json q at r).1 (perform q k)
  unfolding set_cluster_data set_cluster_status delete_cluster
  called-HoldsIn (set_data id cd) at r k done h =
      elim (Option-cases (json.cluster_data.encode cd)) [
        | inl e ↦ let failed : err marshal_failed ≡ ok tt = rw (e, set_cluster_data) at done in cc
        | inr (text, e) ↦
            rw (e, set_cluster_data)
              (rw (execute_ok c json view serves _ at r (rw (e, set_cluster_data) at done))
                (set_data-Holds json (view r.world) k at h id cd text e))
      ]
  called-HoldsIn (set_status id s) at r k done h =
      elim (Option-cases (json.cluster_status.encode s)) [
        | inl e ↦ let failed : err marshal_failed ≡ ok tt = rw (e, set_cluster_status) at done in cc
        | inr (text, e) ↦
            rw (e, set_cluster_status)
              (rw (execute_ok c json view serves _ at r (rw (e, set_cluster_status) at done))
                (set_status-Holds json (view r.world) k at h id s text e))
      ]
  called-HoldsIn (delete id) at r k done h =
      rw (execute_ok c json view serves _ at r done) (delete-Holds json (view r.world) k at h id)

  step-HoldsIn :
      (o : Op c json) (r : Store c json) (k : Contents)
      → Succeeds c json o r
      → HoldsIn c json view serves r k
      → HoldsIn c json view serves (step c json o r) (promised c json o k)
  unfolding delete_screen_token validate_screen_token
  step-HoldsIn (call q at) r k done h = called-HoldsIn q at r k done h
  step-HoldsIn (create random created expires at) r k done h =
      create-HoldsIn c json view serves random created expires at r k h
  step-HoldsIn (redeem token addr at now at' used) r k done h =
      redeem-HoldsIn c json view serves token addr at now at' used r k h
  step-HoldsIn (validate token at now) r k done h =
      fetch-HoldsIn c json view serves json.screen_token token_not_found (token_key token) at r k h
  step-HoldsIn (revoke token at) r k done h =
      execute-HoldsIn c json view serves (del (token_key token) ∷ []) at r k ((token, refl), tt) h
  step-HoldsIn (publish kind payload now) r k done h =
      publish-HoldsIn c json view serves kind payload now r k h

  run-HoldsIn :
      (os : List (Op c json)) (r : Store c json) (k : Contents)
      → AllSucceed c json os r
      → HoldsIn c json view serves r k
      → HoldsIn c json view serves (run c json os r) (promised_all c json os k)
  run-HoldsIn [] r k done h = h
  run-HoldsIn (o ∷ os) r k done h =
      run-HoldsIn os (step c json o r) (promised c json o k) done.1 (step-HoldsIn o r k done.0 h)

  fetch-Kept :
      {A : Type 0} (codec : Codec A) (key : String) (at : Time) (r : Store c json) (a : Option A)
      → Kept codec a ((view r.world).entry key)
      → ((fetch c json codec cluster_not_found key at r).0 ≡ err command_failed)
        ⊎ ((fetch c json codec cluster_not_found key at r).0 ≡ Answer codec a)
  unfolding fetch
  fetch-Kept codec key at r none kept = elim (Option-cases (c.get key at r.world).0) [
    | inl q ↦ inl (rw (q, fetch) refl)
    | inr (reply, q) ↦
        let nil : reply ≡ none =
          serves.get_lem key at r.world q ∙ ap (λ e. text_of (live at e)) kept in
        inr (rw (q, fetch) (rw nil refl))
  ]
  fetch-Kept codec key at r (some a) (text, e, kept) =
      elim (Option-cases (c.get key at r.world).0) [
        | inl q ↦ inl (rw (q, fetch) refl)
        | inr (reply, q) ↦
            let got : reply ≡ some text =
              serves.get_lem key at r.world q ∙ ap (λ e. text_of (live at e)) kept in
            inr (rw (q, fetch) (rw got (rw (e, Answer) refl)))
      ]

  -- After any calls of a process on a server that holds some clusters, if none of its calls that set
  -- or delete a cluster returned an error, a cluster's data and its status read as the contract says,
  -- through the codec, and the IDs are those that have data; or the server does not answer.
  pub redis_refines :
      (os : List (Op c json)) (r : Store c json) (k : Contents) (id : String) (at : Time)
      → HoldsIn c json view serves r k
      → AllSucceed c json os r
      → let r' = run c json os r in
        let k' = promised_all c json os k in
        (((get_cluster_data c json id at r').0 ≡ err command_failed)
          ⊎ ((get_cluster_data c json id at r').0 ≡ Answer json.cluster_data (k'.data_of id)))
        × (((get_cluster_status c json id at r').0 ≡ err command_failed)
            ⊎ ((get_cluster_status c json id at r').0
                ≡ Answer json.cluster_status (k'.status_of id)))
        × (((c.smembers cluster_set_key r'.world).0 ≡ none)
            ⊎ (any (λ j. j == id) (get_cluster_ids c json r').0 ≡ is_present (k'.data_of id)))
  redis_refines os r k id at h done =
      let r' = run c json os r in
      let k' = promised_all c json os k in
      let held = run-HoldsIn os r k done h in
      (
        fetch-Kept json.cluster_data (cluster_data_key id) at r' (k'.data_of id)
            (held.data_kept id),
        fetch-Kept json.cluster_status (cluster_status_key id) at r' (k'.status_of id)
            (held.status_kept id),
        elim (Option-cases (c.smembers cluster_set_key r'.world).0) [
          | inl q ↦ inl q
          | inr (l, q) ↦
              inr (rw q (serves.smembers_lem cluster_set_key r'.world q id ∙ held.members_kept id))
        ],
      )
