-- ===== src/Events/Publisher/Snapshot.antt =====
-- `Snapshot` of internal/events/publisher.go: what a new client is told first.
use go_kube_ops_view.Prelude.{
  String, ◌≡◌, refl, Bool, true, not, ◌&&◌, ltb, Option, none, some, List, [], ◌∷◌, ◌++◌, Result,
  ok, err, panic, ◌∙◌, ap, any, All, ◌==◌, arith, eq_iff, nat_eq, length, if◌then◌else◌,
}
use go_kube_ops_view.Json
use go_kube_ops_view.Models.{Time, ClusterData}
use go_kube_ops_view.Store.{
  Event, ClusterStatus, value, cluster, status, event_type_cluster_update,
  event_type_cluster_status,
}
use go_kube_ops_view.Events.{StoreApi}
use go_kube_ops_view.Events.Publisher.{
  State, publisher_closed, snapshot, snapshot_from, snapshot_of,
}

abbrev names : String → List String → Bool
names id l = any (λ j. j == id) l

names_here : (id : String) (l : List String) → names id (id ∷ l) ≡ true
names_here id l = ground (arith, eq_iff id id)

names_cons : (id j : String) (l : List String) → names id l ≡ true → names id (j ∷ l) ≡ true
names_cons id j l h = ground arith

All-names_cons :
    (j : String) (l ids : List String)
    → All (λ id. names id l ≡ true) ids
    → All (λ id. names id (j ∷ l) ≡ true) ids
All-names_cons j l [] h = tt
All-names_cons j l (id ∷ ids) h = (names_cons id j l h.0, All-names_cons j l ids h.1)

-- A list names each of its own elements.
names_self : (l : List String) → All (λ id. names id l ≡ true) l
names_self [] = tt
names_self (j ∷ l) = (names_here j l, All-names_cons j l l (names_self l))

-- The event that ends a snapshot.
abbrev pub bootstrap_end : Time → Event
bootstrap_end now = record {
  kind = "bootstrap_end";
  payload = value (Json.obj Json.end);
  timestamp = now;
  cluster_id = "";
}

-- What a client is told of a cluster's data and of its status.
abbrev pub update_event : String → Time → ClusterData → Event
update_event id now cd = record {
  kind = event_type_cluster_update;
  payload = cluster (some cd);
  timestamp = now;
  cluster_id = id;
}

abbrev pub status_event : String → Time → ClusterStatus → Event
status_event id now st = record {
  kind = event_type_cluster_status;
  payload = status (some st);
  timestamp = now;
  cluster_id = id;
}

-- An event for a value that was read, in front of others; an error tells nothing, and a panic of
-- the read or of what follows is `none`.
abbrev pub told {ℓ} :
    {E A : Type ℓ} → (A → Event) → Result E A → Option (List Event) → Option (List Event)
told f (ok a) (some es) = some (f a ∷ es)
told f (err e) (some es) = some es
told f _ _ = none

module _ (api : StoreApi) where
  -- For each cluster in turn its data and its status, as far as the store has them.
  abbrev pub events_of : List String → Time → api.State → Option (List Event)
  events_of [] now s = some []
  events_of (id ∷ ids) now s =
      told (update_event id now) (api.get_cluster_data id s)
        (told (status_event id now) (api.get_cluster_status id s) (events_of ids now s))

  abbrev in_front : Option (List Event) → Option (List Event) → Option (List Event)
  in_front one rest = elim one [
    | none ↦ none
    | some es ↦ elim rest [ none ↦ none | some more ↦ some (es ++ more) ]
  ]

  unfiltered {ℓ} : {A : Type ℓ} (b : Bool) (x y : A) → (if b && not true then x else y) ≡ y
  unfiltered b x y = ground arith

  one_cluster :
      (id : String) (now : Time) (s : api.State) (rest : Option (List Event))
      → in_front (snapshot_of api id now s) rest
        ≡ told
            (update_event id now)
            (api.get_cluster_data id s)
            (told (status_event id now) (api.get_cluster_status id s) rest)
  unfolding snapshot_of
  one_cluster id now s rest = ground arith

  -- One turn of the loop, in front of the others.
  abbrev turned :
      List String → String → Time → api.State → Option (List Event) → Option (List Event)
  turned filter id now s rest =
      if ltb 0 (length filter) && not (names id filter)
      then rest
      else in_front (snapshot_of api id now s) rest

  kept_by_filter :
      (filter ids : List String) (now : Time) (s : api.State)
      → All (λ id. names id filter ≡ true) ids
      → snapshot_from api filter ids now s ≡ events_of ids now s
  unfolding snapshot_from
  kept_by_filter filter [] now s h = refl
  kept_by_filter filter (id ∷ ids) now s h =
      ap (λ r. turned filter id now s r) (kept_by_filter filter ids now s h.1)
      ∙ rw h.0 (unfiltered (ltb 0 (length filter)) _ _)
      ∙ one_cluster id now s (events_of ids now s)

  no_filter :
      (ids : List String) (now : Time) (s : api.State)
      → snapshot_from api [] ids now s ≡ events_of ids now s
  unfolding snapshot_from
  no_filter [] now s = refl
  no_filter (id ∷ ids) now s =
      ap (λ r. turned [] id now s r) (no_filter ids now s)
      ∙ one_cluster id now s (events_of ids now s)

  -- A closed publisher refuses. An open one returns, for each cluster asked for in the order of the
  -- question, repeats included, or for each cluster of the store if none is named, an event with the
  -- data that the store has of it and one with its status, an error leaving its event out, and then
  -- one `bootstrap_end`; it panics exactly if one of these reads does.
  pub snapshot_lem :
      (filter : List String) (now : Time) (p : State api)
      → snapshot api filter now p ≡ (
          if p.closed
          then err publisher_closed
          else elim (events_of
              (if nat_eq (length filter) 0 then api.get_cluster_ids p.store else filter)
              now
              p.store) [ none ↦ panic | some es ↦ ok (es ++ bootstrap_end now ∷ []) ])
  unfolding snapshot
  snapshot_lem [] now p = ground (arith, no_filter (api.get_cluster_ids p.store) now p.store)
  snapshot_lem (id ∷ ids) now p =
      let kept = kept_by_filter (id ∷ ids) (id ∷ ids) now p.store (names_self (id ∷ ids)) in
      ground (arith, kept)
