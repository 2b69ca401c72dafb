-- ===== src/Delta/Integration.antt =====
-- internal/delta/integration.go: `DeltaManager`, over what takes its events and what compresses a delta.
-- `ApplyDelta`, which applies nothing, and `ValidateDelta` are left out.
use go_kube_ops_view.Prelude.{
  String, ◌≡◌, refl, ap, ◌∙◌, Bool, Option, none, some, List, [], ◌∷◌, Result, ok, err, panic,
  if◌then◌else◌, arith, ◌==◌, eq_refl, Result-split, inl, inr, Option-cases,
}
use go_kube_ops_view.Dict
use go_kube_ops_view.Json.{Json}
use go_kube_ops_view.Models.{ClusterData, Time}
use go_kube_ops_view.Models.Validate.{validate}
use go_kube_ops_view.Models.Clone.Plain.{image}
use go_kube_ops_view.Delta.Optimize.{Stanza, optimize_delta}
use go_kube_ops_view.Delta.Optimize.LastWins.{last_of_each, optimize_delta_lem}
use go_kube_ops_view.Delta.Slices.{slices}
use go_kube_ops_view.Delta.Calculator.{delta}
use go_kube_ops_view.Delta.Previous.{
  DeltaError, DeltaCalculator, unless_empty, clear_cluster, calculate_delta, stored, answer,
}

-- `EventPublisher`, which says whether it failed, and `NewCompressedDelta`.
pub record DeltaPublisher : Type 1 where
  pub State : Type 0
  pub Compressed : Type 0
  pub new_compressed_delta : String → List Stanza → ClusterData → Option Compressed
  pub update : String → ClusterData → Time → State → Bool × State
  pub change : String → List Stanza → Compressed → Time → State → Bool × State

pub data UpdateError : Type 0 where
  not_calculated : DeltaError → UpdateError
  not_compressed not_published : UpdateError

module _ (pub_to : DeltaPublisher) (to_generic : ClusterData → Option Json) where
  pub record DeltaManager : Type 0 where
    pub calculator : DeltaCalculator
    pub publisher : pub_to.State

  abbrev pub Outcome : Type 0
  Outcome = Result UpdateError (Unit {0}) × DeltaManager

  unfoldable pub publish_full_update : String → ClusterData → Time → DeltaManager → Outcome
  publish_full_update id c now m =
      let (failed, p) = pub_to.update id c now m.publisher in
      (if failed then err not_published else ok tt, record m { publisher = p })

  unfoldable pub publish_delta : String → List Stanza → ClusterData → Time → DeltaManager → Outcome
  publish_delta id ds c now m = elim (pub_to.new_compressed_delta id ds c) [
    | none ↦ (err not_compressed, m)
    | some z ↦
        let (failed, p) = pub_to.change id ds z now m.publisher in
        (if failed then err not_published else ok tt, record m { publisher = p })
  ]

  -- What follows the calculation of the delta.
  abbrev pub publish_answer :
      String
      → ClusterData
      → Time
      → DeltaManager
      → Result DeltaError (Option (List Stanza)) × DeltaCalculator
      → Outcome
  publish_answer id c now m answer =
      let kept : DeltaManager = record m { calculator = answer.1 } in
      elim answer.0 [
        | panic ↦ (panic, kept)
        | err e ↦ (err (not_calculated e), kept)
        | ok none ↦ publish_full_update id c now kept
        | ok (some ds) ↦ publish_delta id (optimize_delta ds) c now kept
      ]

  unfoldable pub process_cluster_update : String → ClusterData → Time → DeltaManager → Outcome
  process_cluster_update id c now m =
      publish_answer id c now m (calculate_delta to_generic id c m.calculator)

  abbrev pub clear : String → DeltaManager → DeltaManager
  clear id m = record m { calculator = clear_cluster id m.calculator }

  publish_delta-calculator :
      (id : String) (ds : List Stanza) (c : ClusterData) (now : Time) (m : DeltaManager)
      → (publish_delta id ds c now m).1.calculator ≡ m.calculator
  unfolding publish_delta
  publish_delta-calculator id ds c now m = ground arith

  process-calculator :
      (id : String) (c : ClusterData) (now : Time) (m : DeltaManager)
      → (process_cluster_update id c now m).1.calculator
        ≡ (calculate_delta to_generic id c m.calculator).1
  unfolding process_cluster_update publish_full_update
  process-calculator id c now m =
      let o = calculate_delta to_generic id c m.calculator in
      elim (Result-split o.0) [
        | inl (d, q) ↦ elim (Option-cases d) [
          | inl n ↦ rw (q, process_cluster_update) (rw n refl)
          | inr (ds, n) ↦
              rw (q, process_cluster_update)
                (rw n (
                  publish_delta-calculator id (optimize_delta ds) c now
                    (record m { calculator = o.1 })))
        ]
        | inr (inl (e, q)) ↦ rw (q, process_cluster_update) refl
        | inr (inr q) ↦ rw (q, process_cluster_update) refl
      ]

  -- What is sent for the changes: all the data if there are none, or the last change of each key.
  abbrev pub send : String → List Stanza → ClusterData → Time → DeltaManager → Outcome
  send id [] c now m = publish_full_update id c now m
  send id (d ∷ ds) c now m = publish_delta id (last_of_each (d ∷ ds)) c now m

  process-answer :
      (id : String) (c : ClusterData) (now : Time) (m : DeltaManager) (ds : List Stanza)
      (calculator : DeltaCalculator)
      → calculate_delta to_generic id c m.calculator ≡ (ok (unless_empty ds), calculator)
      → process_cluster_update id c now m ≡ send id ds c now (record m { calculator = calculator })
  unfolding process_cluster_update
  process-answer id c now m [] calculator q = ap (publish_answer id c now m) q
  process-answer id c now m (d ∷ ds) calculator q =
      ap (publish_answer id c now m) q
      ∙ ap (λ (l : List Stanza). publish_delta id l c now (record m { calculator = calculator }))
          (optimize_delta_lem (d ∷ ds))

  -- Two successive valid states of a cluster: once the delta manager could calculate for the first,
  -- it sends for the second all of its data if nothing changed since the copy of the first, and
  -- otherwise the changes from that copy, of each key the last, and it keeps a copy of the second.
  pub process_cluster_update_lem :
      (id : String) (c c' : ClusterData) (now now' : Time) (m : DeltaManager) (l r : Json)
      {d : Option (List Stanza)}
      → validate c ≡ ok tt
      → validate c' ≡ ok tt
      → to_generic (image c) ≡ some l
      → to_generic c' ≡ some r
      → (calculate_delta to_generic id c m.calculator).0 ≡ ok d
      → let m1 = (process_cluster_update id c now m).1 in
        process_cluster_update id c' now' m1
        ≡ send id (delta slices [] l r) c' now' (record m1 {
          calculator = record { previous = Dict.put m1.calculator.previous id (image c') };
        })
  process_cluster_update_lem id c c' now now' m l r v v' q t h =
      let m1 = (process_cluster_update id c now m).1 in
      let kept =
        ap (λ (k : DeltaCalculator). Dict.get k.previous id) (process-calculator id c now m)
        ∙ stored to_generic id id c m.calculator v h
        ∙ same id (some (image c)) _ in
      process-answer id c' now' m1 (delta slices [] l r) _
        (answer to_generic id (image c) c' m1.calculator l r v' kept q t)
    where
      same : (id : String) (x y : Option ClusterData) → (if id == id then x else y) ≡ x
      same id x y = rw (eq_refl id) refl
