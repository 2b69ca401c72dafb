-- ===== src/Delta/Optimize/LastWins.antt =====
-- What `OptimizeDelta` (internal/delta/compression.go) keeps of a delta.
use mathlib.Core.List.{append-nil}
use go_kube_ops_view.Prelude.{
  ℕ, zero, suc, ◌<◌, String, ◌≡◌, refl, ◌∙◌, sym, ap, Bool, true, false, not, ◌&&◌, ◌||◌, Option,
  none, some, List, [], ◌∷◌, ◌++◌, arith, eq_iff, eq_refl, if◌then◌else◌, length, length-append,
  Bool-cases, Option-cases, inl, inr,
}
use go_kube_ops_view.Delta.Optimize.{
  Stanza, KeyMap, same_key, cut_out, remove_index, shift, superseded, turn, turns, optimize_delta,
}

same_key_refl : (k : List String) → same_key k k ≡ true
unfolding same_key
same_key_refl [] = refl
same_key_refl (a ∷ k) = ground (arith, eq_refl a, same_key_refl k)

same_key-eq : (k l : List String) → same_key k l ≡ true → k ≡ l
unfolding same_key
same_key-eq [] [] h = refl
same_key-eq [] (b ∷ l) h = cc
same_key-eq (a ∷ k) [] h = cc
same_key-eq (a ∷ k) (b ∷ l) h = ground (arith, eq_iff a b, same_key-eq k l)

same_key-left : (k l j : List String) → same_key k l ≡ true → same_key k j ≡ same_key l j
same_key-left k l j h = ap (λ x. same_key x j) (same_key-eq k l h)

same_key-right : (k l j : List String) → same_key l j ≡ true → same_key k l ≡ same_key k j
same_key-right k l j h = ap (same_key k) (same_key-eq l j h)

-- Whether a delta changes what is at a key.
abbrev pub touches : List String → List Stanza → Bool
touches k [] = false
touches k (d ∷ ds) = same_key d.key k || touches k ds

-- The last stanza of each key, in the order of these.
abbrev pub last_of_each : List Stanza → List Stanza
last_of_each [] = []
last_of_each (d ∷ ds) = let rest = last_of_each ds in if touches d.key ds then rest else d ∷ rest

abbrev without_key : List String → List Stanza → List Stanza
without_key k [] = []
without_key k (d ∷ ds) = let rest = without_key k ds in if same_key d.key k then rest else d ∷ rest

-- The first place of a key.
abbrev place : List String → List Stanza → Option ℕ
place k [] = none
place k (d ∷ ds) =
    let rest = place k ds in
    if same_key d.key k then some 0 else elim rest [ none ↦ none | some n ↦ some (suc n) ]

abbrev AreDistinct : List Stanza → Type 0
AreDistinct [] = Unit
AreDistinct (d ∷ ds) = (touches d.key ds ≡ false) × AreDistinct ds

absent_place : (k : List String) (ds : List Stanza) → touches k ds ≡ false → place k ds ≡ none
absent_place k [] h = refl
absent_place k (d ∷ ds) h = ground (arith, absent_place k ds)

place_absent : (k : List String) (ds : List Stanza) → place k ds ≡ none → touches k ds ≡ false
place_absent k [] h = refl
place_absent k (d ∷ ds) h = ground (arith, h, place_absent k ds)

absent_without : (k : List String) (ds : List Stanza) → touches k ds ≡ false → without_key k ds ≡ ds
absent_without k [] h = refl
absent_without k (d ∷ ds) h = ground (arith, absent_without k ds)

place-bound : (k : List String) (ds : List Stanza) (i : ℕ) → place k ds ≡ some i → i < length ds
place-bound k [] i h = cc
place-bound k (d ∷ ds) i h = elim (Option-cases (place k ds)) [
  | inl e ↦ ground (arith, e)
  | inr (n, e) ↦ ground (arith, e, place-bound k ds n e)
]

touches_same :
    (k l : List String) (ds : List Stanza) → same_key k l ≡ true → touches k ds ≡ touches l ds
touches_same k l ds h = ap (λ x. touches x ds) (same_key-eq k l h)

-- Cutting out the place of a key of a list without repetitions takes out the key.
cut_out-place :
    (k : List String) (ds : List Stanza) (i : ℕ)
    → AreDistinct ds
    → place k ds ≡ some i
    → cut_out i ds ≡ without_key k ds
unfolding cut_out
cut_out-place k [] i u h = cc
cut_out-place k (d ∷ ds) zero u h =
    ground (arith, h, u.0, touches_same d.key k ds, absent_without k ds)
cut_out-place k (d ∷ ds) (suc i) u h = ground (arith, h, cut_out-place k ds i u.1)

place-without :
    (k j : List String) (ds : List Stanza) (i : ℕ)
    → AreDistinct ds
    → place k ds ≡ some i
    → same_key k j ≡ false
    → place j (without_key k ds) ≡ shift i (place j ds)
place-without k j [] i u h n = cc
place-without k j (d ∷ ds) zero u h n =
    ground (arith, h, u.0, n, touches_same d.key k ds, same_key-eq d.key k, absent_without k ds)
place-without k j (d ∷ ds) (suc i) u h n = ground (arith, h, n, place-without k j ds i u.1)

same_key-sym : (k l : List String) → same_key k l ≡ same_key l k
unfolding same_key
same_key-sym [] [] = refl
same_key-sym [] (b ∷ l) = refl
same_key-sym (a ∷ k) [] = refl
same_key-sym (a ∷ k) (b ∷ l) = ground (arith, eq_iff a b, eq_iff b a, same_key-sym k l)

touches-snoc :
    (k : List String) (d : Stanza) (ds : List Stanza)
    → touches k (ds ++ d ∷ []) ≡ (touches k ds || same_key d.key k)
touches-snoc k d [] = ground arith
touches-snoc k d (e ∷ ds) = ground (arith, touches-snoc k d ds)

touches-without :
    (k j : List String) (ds : List Stanza)
    → touches j (without_key k ds) ≡ (touches j ds && not (same_key k j))
touches-without k j [] = refl
touches-without k j (d ∷ ds) =
    ground (arith, touches-without k j ds, same_key-left d.key k j, same_key-right d.key k j)

without-AreDistinct :
    (k : List String) (ds : List Stanza) → AreDistinct ds → AreDistinct (without_key k ds)
without-AreDistinct k [] u = tt
without-AreDistinct k (d ∷ ds) u = elim (Bool-cases (same_key d.key k)) [
  | inl e ↦ rw e (without-AreDistinct k ds u.1)
  | inr e ↦ rw e (ground (arith, touches-without k d.key ds, u.0), without-AreDistinct k ds u.1)
]

snoc-AreDistinct :
    (d : Stanza) (ds : List Stanza)
    → touches d.key ds ≡ false
    → AreDistinct ds
    → AreDistinct (ds ++ d ∷ [])
snoc-AreDistinct d [] h u = (refl, tt)
snoc-AreDistinct d (e ∷ ds) h u = (
  ground (arith, h, u.0, same_key-sym e.key d.key, touches-snoc e.key d ds),
  snoc-AreDistinct d ds (ground (arith, h)) u.1,
)

place-snoc :
    (j : List String) (d : Stanza) (ds : List Stanza)
    → touches d.key ds ≡ false
    → place j (ds ++ d ∷ []) ≡ (if same_key d.key j then some (length ds) else place j ds)
place-snoc j d [] h = ground arith
place-snoc j d (e ∷ ds) h =
    ground (arith, h, place-snoc j d ds, same_key-left d.key j e.key, same_key-right e.key d.key j)

-- What the loop keeps: the operations so far have distinct keys, and the index knows their places.
record IsIndexed (s : List Stanza × KeyMap) : Type 0 where
  distinct : AreDistinct s.0
  index : (k : List String) → s.1 k ≡ place k s.0

superseded-eq :
    (d : Stanza) (o : List Stanza) (m : KeyMap)
    → IsIndexed (o, m)
    → ((superseded d o m).0 ≡ without_key d.key o)
      × ((j : List String)
          → same_key d.key j ≡ false
          → (superseded d o m).1 j ≡ place j (without_key d.key o))
unfolding remove_index
superseded-eq d o m h = elim (Option-cases (place d.key o)) [
  | inl e ↦
      let q = h.index d.key ∙ e in
      let same = absent_without d.key o (place_absent d.key o e) in
      (ground (arith, q, same), λ j n. ground (arith, q, same, h.index j))
  | inr (i, e) ↦
      let q = h.index d.key ∙ e in
      let cut = cut_out-place d.key o i h.distinct e in
      let inside = place-bound d.key o i e in
      (
        ground (arith, q, cut, inside),
        λ j n. ground (arith, q, h.index j, place-without d.key j o i h.distinct e n),
      )
]

gone : (k : List String) (ds : List Stanza) → touches k (without_key k ds) ≡ false
gone k ds = ground (arith, touches-without k k ds, same_key_refl k)

turn-eq :
    (d : Stanza) (o : List Stanza) (m : KeyMap)
    → IsIndexed (o, m)
    → (turn d (o, m)).0 ≡ without_key d.key o ++ d ∷ []
unfolding turn
turn-eq d o m h = ap (λ (x : List Stanza). x ++ d ∷ []) (superseded-eq d o m h).0

turn-IsIndexed :
    (d : Stanza) (o : List Stanza) (m : KeyMap) → IsIndexed (o, m) → IsIndexed (turn d (o, m))
unfolding turn
turn-IsIndexed d o m h =
    let (kept, index) = superseded-eq d o m h in
    let rest = without_key d.key o in
    record {
      distinct =
          rw kept (snoc-AreDistinct d rest (gone d.key o) (without-AreDistinct d.key o h.distinct));
      index = λ k.
          ground
            (arith, kept, index k, place-snoc k d rest (gone d.key o), length-append rest (d ∷ []));
    }

abbrev untouched : List Stanza → List Stanza → List Stanza
untouched ds [] = []
untouched ds (e ∷ o) = let rest = untouched ds o in if touches e.key ds then rest else e ∷ rest

untouched-turn :
    (d : Stanza) (ds o : List Stanza)
    → untouched ds (without_key d.key o ++ d ∷ []) ++ last_of_each ds
      ≡ untouched (d ∷ ds) o ++ last_of_each (d ∷ ds)
untouched-turn d ds [] = ground arith
untouched-turn d ds (e ∷ o) = ground (arith, untouched-turn d ds o, same_key-sym d.key e.key)

untouched_none : (o : List Stanza) → untouched [] o ≡ o
untouched_none [] = refl
untouched_none (e ∷ o) = ap (λ (x : List Stanza). e ∷ x) (untouched_none o)

turns-eq :
    (ds o : List Stanza) (m : KeyMap)
    → IsIndexed (o, m)
    → (turns ds (o, m)).0 ≡ untouched ds o ++ last_of_each ds
unfolding turns
turns-eq [] o m h = sym (append-nil (untouched [] o) ∙ untouched_none o)
turns-eq (d ∷ ds) o m h =
    turns-eq ds (turn d (o, m)).0 (turn d (o, m)).1 (turn-IsIndexed d o m h)
    ∙ ap (λ x. untouched ds x ++ last_of_each ds) (turn-eq d o m h)
    ∙ untouched-turn d ds o

-- `OptimizeDelta` keeps the last operation of each key and nothing else, in the order in which
-- these come in the delta.
pub optimize_delta_lem : (delta : List Stanza) → optimize_delta delta ≡ last_of_each delta
unfolding optimize_delta
optimize_delta_lem [] = refl
optimize_delta_lem (d ∷ []) = refl
optimize_delta_lem (d ∷ e ∷ ds) =
    let all = turns-eq (d ∷ e ∷ ds) [] (λ k. none) (record { distinct = tt; index = λ k. refl }) in
    ground (arith, all)
