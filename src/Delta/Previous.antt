-- ===== src/Delta/Previous.antt =====
-- `DeltaCalculator` of internal/delta/calculator.go: the states that deltas are calculated from. The
-- JSON reading of a cluster's data, which encoding/json makes for `toGenericInterface`, is the
-- argument `to_generic`; `none` is its error. The data passed in is no nil pointer.
use go_kube_ops_view.Prelude.{
  String, ◌≡◌, ap, Option, none, some, false, List, [], ◌∷◌, Result, ok, err, panic, arith, ◌==◌,
  eq_refl, if◌then◌else◌, Option-cases, inl, inr,
}
use go_kube_ops_view.Dict
use go_kube_ops_view.Dict.{Dict, get-put}
use go_kube_ops_view.Json.{Json}
use go_kube_ops_view.Models.{ClusterData}
use go_kube_ops_view.Models.Validate.{validate}
use go_kube_ops_view.Models.Clone.{clone}
use go_kube_ops_view.Models.Clone.Plain.{image}
use go_kube_ops_view.Models.Clone.Image.{clone_valid}
use go_kube_ops_view.Delta.Optimize.{Stanza}
use go_kube_ops_view.Delta.Slices.{slices}
use go_kube_ops_view.Delta.Calculator.{delta}

pub data DeltaError : Type 0 where
  previous_not_converted current_not_converted : DeltaError

pub record DeltaCalculator : Type 0 where
  pub previous : Dict ClusterData

abbrev pub new_delta_calculator : DeltaCalculator
new_delta_calculator = record { previous = Dict.empty }

abbrev pub Outcome : Type 0
Outcome = Result DeltaError (Option (List Stanza)) × DeltaCalculator

-- nil for an empty delta
abbrev pub unless_empty : List Stanza → Option (List Stanza)
unless_empty [] = none
unless_empty (d ∷ ds) = some (d ∷ ds)

-- d.previous[clusterID] = current.Clone(), and the result; a nil pointer in the data panics.
unfoldable pub remember : String → ClusterData → Option (List Stanza) → DeltaCalculator → Outcome
remember id current result m = elim (clone current) [
  | none ↦ (panic, m)
  | some copy ↦ (ok result, record m { previous = Dict.put m.previous id copy })
]

abbrev pub clear_cluster : String → DeltaCalculator → DeltaCalculator
clear_cluster id m = record m { previous = Dict.remove m.previous id }

abbrev pub get_stored_clusters : DeltaCalculator → List String
get_stored_clusters m = Dict.keys m.previous

module _ (to_generic : ClusterData → Option Json) where
  unfoldable pub calculate_delta : String → ClusterData → DeltaCalculator → Outcome
  calculate_delta id current m = elim (Dict.get m.previous id) [
    | none ↦ remember id current none m
    | some prev ↦ elim (to_generic prev) [
      | none ↦ (err previous_not_converted, m)
      | some l ↦ elim (to_generic current) [
        | none ↦ (err current_not_converted, m)
        | some r ↦ remember id current (unless_empty (delta slices [] l r)) m
      ]
    ]
  ]

  remembered :
      (id j : String) (c : ClusterData) (result : Option (List Stanza)) (m : DeltaCalculator)
      → validate c ≡ ok tt
      → (Dict.get (remember id c result m).1.previous j
          ≡ (if id == j then some (image c) else Dict.get m.previous j))
        × ((remember id c result m).0 ≡ ok result)
  unfolding remember
  remembered id j c result m v =
      let copied = (clone_valid c v).0 in
      (ground (arith, copied, get-put m.previous id j (image c)), ground (arith, copied))

  pub stored :
      (id j : String) (c : ClusterData) (m : DeltaCalculator) {d : Option (List Stanza)}
      → validate c ≡ ok tt
      → (calculate_delta id c m).0 ≡ ok d
      → Dict.get (calculate_delta id c m).1.previous j
        ≡ (if id == j then some (image c) else Dict.get m.previous j)
  unfolding calculate_delta
  stored id j c m v h = elim (Option-cases (Dict.get m.previous id)) [
    | inl e ↦ ground (arith, e, (remembered id j c none m v).0)
    | inr (p, e) ↦ elim (Option-cases (to_generic p)) [
      | inl q ↦ absurd (ground (arith, e, q, h))
      | inr (l, q) ↦ elim (Option-cases (to_generic c)) [
        | inl t ↦ absurd (ground (arith, e, q, t, h))
        | inr (r, t) ↦
            ground (arith, e, q, t, (remembered id j c (unless_empty (delta slices [] l r)) m v).0)
      ]
    ]
  ]

  -- The second state of two: the answer, and the copy that is kept.
  pub answer :
      (id : String) (p c : ClusterData) (m : DeltaCalculator) (l r : Json)
      → validate c ≡ ok tt
      → Dict.get m.previous id ≡ some p
      → to_generic p ≡ some l
      → to_generic c ≡ some r
      → calculate_delta id c m ≡ (
        ok (unless_empty (delta slices [] l r)),
        record m { previous = Dict.put m.previous id (image c) },
      )
  unfolding calculate_delta remember
  answer id p c m l r v e q t = let copied = (clone_valid c v).0 in ground (arith, e, q, t, copied)

  -- Two successive valid states of a cluster, with a call for another cluster in between: once
  -- `CalculateDelta` has succeeded for the first, it answers the second with the delta from the copy
  -- of the first to the second, or with nil if that is empty.
  pub calculate_delta_lem :
      (id other : String) (c c' o : ClusterData) (m : DeltaCalculator) (l r : Json)
      {d : Option (List Stanza)} {d' : Option (List Stanza)}
      → (other == id) ≡ false
      → validate c ≡ ok tt
      → validate c' ≡ ok tt
      → validate o ≡ ok tt
      → to_generic (image c) ≡ some l
      → to_generic c' ≡ some r
      → (calculate_delta id c m).0 ≡ ok d
      → (calculate_delta other o (calculate_delta id c m).1).0 ≡ ok d'
      → (calculate_delta id c' (calculate_delta other o (calculate_delta id c m).1).1).0
        ≡ ok (unless_empty (delta slices [] l r))
  calculate_delta_lem id other c c' o m l r n v v' w q t h h' =
      let m1 = (calculate_delta id c m).1 in
      let m2 = (calculate_delta other o m1).1 in
      let first = stored id id c m v h in
      let second = stored other id o m1 w h' in
      ap (λ (o : Outcome). o.0)
        (answer id (image c) c' m2 l r v' (ground (arith, second, first, n, eq_refl id)) q t)
