-- ===== src/Events/Sse/Balance/Connect.antt =====
-- `HandleSSE` of internal/events/sse.go up to its loop keeps the subscriptions those of the connected
-- clients.
use go_kube_ops_view.Prelude.{
  String, ◌≡◌, refl, ap, sym, subst, ◌∙◌, none, List, [], ◌∷◌, ◌++◌, Result, ok, err, inl, inr,
  Bool-cases, leb,
}
use go_kube_ops_view.Dict
use go_kube_ops_view.Dict.Values.{values-put_new, IsNew}
use go_kube_ops_view.Models.{Time}
use go_kube_ops_view.Events.Sse.{
  EventPublisher, Connections, SseClient, Deadlock, deadlock, send_event, get_client_count,
}
use go_kube_ops_view.Events.Sse.Handle.{
  Request, Answer, Stage, serving, rejected, generate_client_id, listed, admit, connect, bootstrap,
  hello, send_bootstrap,
}
use go_kube_ops_view.Events.Sse.Publishers.{PublisherLaws}
use go_kube_ops_view.Events.Sse.Balance.{IsBalanced}
use go_kube_ops_view.Events.Sse.Filter.{parse_cluster_filter}
use go_kube_ops_view.Events.Sse.Balance.Steps.{unlocked, Handler, in_world, cleanup_client-Keeps}

module _ (api : EventPublisher) (net : Connections) (laws : PublisherLaws api) where
  bootstrap-Keeps :
      (c : SseClient) (ids : List String) (now : Time) (h : Handler api net laws)
      → IsBalanced api net laws h
      → (x : Stage) × (h' : Handler api net laws) × (bootstrap api net c ids now h ≡ ok (x, h'))
        × IsBalanced api net laws h'
  unfolding bootstrap
  bootstrap-Keeps c ids now h b =
      let o = send_event api net c (hello c now) h.world in
      elim (laws.snapshot_law ids now h.publisher b.good) [
        | inr (e, q) ↦ (
          serving c,
          record h { world = o.1 },
          rw (q, bootstrap) refl,
          in_world api net laws h o.1 b,
        )
        | inl (es, q) ↦
            let w = send_bootstrap api net c es o.1 in
            elim (Bool-cases w.0) [
              | inr f ↦ (
                serving c,
                record h { world = w.1 },
                rw (q, bootstrap) (rw f refl),
                in_world api net laws h w.1 b,
              )
              | inl f ↦
                  let (h', e, b') =
                    cleanup_client-Keeps api net laws c.id (record h { world = w.1 })
                      (in_world api net laws h w.1 b) in
                  (rejected, h', rw (q, bootstrap) (rw f (rw e refl)), b')
            ]
      ]

  admit-Keeps :
      (r : Request) (now : Time) (h : Handler api net laws)
      → IsBalanced api net laws h
      → Dict.get h.clients (generate_client_id r) ≡ none
      → (x : Stage) × (h' : Handler api net laws) × ((admit api net r now h).1 ≡ ok (x, h'))
        × IsBalanced api net laws h'
  unfolding admit
  admit-Keeps r now h b new =
      let filter = parse_cluster_filter r.clusters r.cluster_ids in
      elim (Bool-cases (leb h.config.max_clients (get_client_count api net h))) [
        | inl m ↦ (rejected, h, rw (m, admit) refl, b)
        | inr m ↦ elim (laws.subscribe_law (listed filter) now h.publisher b.good) [
          | inl (e, q) ↦ (
            rejected,
            record h { publisher = (api.subscribe (listed filter) now h.publisher).1 },
            rw (m, admit) (rw (ap (λ o. o.0) q, admit) refl),
            record {
              is_free = b.is_free;
              good = subst laws.IsGood (sym (ap (λ o. o.1) q)) b.good;
              apart = b.apart;
              balanced = ap (λ o. laws.subscriptions o.1) q ∙ b.balanced;
            },
          )
          | inr (ch, p, q, g, s, n) ↦
              let c : SseClient = record {
                id = generate_client_id r;
                connection = r.connection;
                cluster_ids = filter;
                connected = now;
                last_ping = now;
                events = ch;
              } in
              let n' = subst (IsNew ch) b.balanced n in
              let (v, a) =
                values-put_new (λ (c : SseClient). c.events) h.clients c.id c b.apart new n' in
              let registered : Handler api net laws = record h {
                publisher = (api.subscribe (listed filter) now h.publisher).1;
                clients = Dict.put h.clients c.id c;
              } in
              let (x, h', e, b') = bootstrap-Keeps c (listed filter) now registered (record {
                is_free = b.is_free;
                good = subst laws.IsGood (sym (ap (λ o. o.1) q)) g;
                apart = a;
                balanced =
                    ap (λ o. laws.subscriptions o.1) q
                    ∙ s
                    ∙ ap (λ l. l ++ ch ∷ []) b.balanced
                    ∙ sym v;
              }) in
              (x, h', rw (m, admit) (rw (ap (λ o. o.0) q, admit) e), b')
        ]
      ]

  abbrev Connected : Type 0
  Connected = List Answer × Result Deadlock (Stage × Handler api net laws)

  pub connect-Keeps :
      (r : Request) (now : Time) (h : Handler api net laws)
      → IsBalanced api net laws h
      → Dict.get h.clients (generate_client_id r) ≡ none
      → (x : Stage) × (h' : Handler api net laws) × ((connect api net r now h).1 ≡ ok (x, h'))
        × IsBalanced api net laws h'
  connect-Keeps r now h b new =
      let (x, h', e, b') = admit-Keeps r now h b new in
      (
        x,
        h',
        ap (λ (o : Connected). o.1) (unlocked ([], err deadlock) (admit api net r now h) b.is_free)
            ∙ e,
        b',
      )
