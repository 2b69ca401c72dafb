-- ===== src/Json/View.antt =====
-- What can be read from a decoded value by following a path: two values with the same readings hold
-- the same data. A key that is not there reads as null, as it does for a consumer of the deltas.
use go_kube_ops_view.Prelude.{
  ℕ, zero, suc, String, ◌≡◌, refl, sym, ap, subst, Bool, true, false, Option, none, some, List, [],
  ◌∷◌, ◌&&◌, arith, eq_iff, ◌==◌, Option-cases, Bool-cases, inl, inr,
}
use go_kube_ops_view.Json.{
  Number, Json, null, bool, num, str, arr, obj, Items, nil, cons, Fields, end, field, natural,
  negative, number_eq, bool_eq, lookup, has, items_length, covered, deep_equal, equal_items,
  equal_fields,
}

pub data Place : Type 0 where
  member : String → Place
  item : ℕ → Place

pub data Shape : Type 0 where
  null_shape object_shape : Shape
  bool_shape : Bool → Shape
  num_shape : Number → Shape
  str_shape : String → Shape
  array_shape : ℕ → Shape

abbrev pub or_null : Option Json → Json
or_null none = null
or_null (some j) = j

abbrev pub nth : ℕ → Items → Json
nth i nil = null
nth zero (cons x xs) = x
nth (suc i) (cons x xs) = nth i xs

abbrev pub child : Json → Place → Json
child (obj fs) (member k) = or_null (lookup k fs)
child (arr xs) (item i) = nth i xs
child _ _ = null

abbrev pub shape : Json → Shape
shape null = null_shape
shape (bool b) = bool_shape b
shape (num n) = num_shape n
shape (str s) = str_shape s
shape (arr xs) = array_shape (items_length xs)
shape (obj fs) = object_shape

abbrev pub view : Json → List Place → Shape
view j [] = shape j
view j (s ∷ p) = view (child j s) p

abbrev pub SameView : Json → Json → Type 0
SameView a b = (p : List Place) → view a p ≡ view b p

-- Two values read alike if their shapes do, and their children at every place.
pub SameView-children :
    (a b : Json)
    → shape a ≡ shape b
    → ((s : Place) → SameView (child a s) (child b s))
    → SameView a b
SameView-children a b h k [] = h
SameView-children a b h k (s ∷ p) = k s p

number_eq-eq : (a b : Number) → number_eq a b ≡ true → a ≡ b
unfolding number_eq
number_eq-eq (natural a) (natural b) h = ground arith
number_eq-eq (negative a) (negative b) h = ground arith
number_eq-eq (natural a) (negative b) h = cc
number_eq-eq (negative a) (natural b) h = cc

bool_eq-eq : (a b : Bool) → bool_eq a b ≡ true → a ≡ b
unfolding bool_eq
bool_eq-eq true b h = sym h
bool_eq-eq false true h = cc
bool_eq-eq false false h = refl

-- A key that an object lacks reads as null.
pub lookup_of_not_has : (k : String) (fs : Fields) → has k fs ≡ false → lookup k fs ≡ none
lookup_of_not_has k fs h = ground arith

pub covered-has :
    (fs gs : Fields) (k : String) → covered fs gs ≡ true → has k fs ≡ true → has k gs ≡ true
unfolding covered lookup
covered-has end gs k c h = cc
covered-has (field j v fs) gs k c h = ground (arith, eq_iff j k, covered-has fs gs k)

and_left : (a b : Bool) → (a && b) ≡ true → a ≡ true
and_left a b h = ground arith

and_right : (a b : Bool) → (a && b) ≡ true → b ≡ true
and_right a b h = ground arith

-- Objects read alike if each member of the first is matched and the second has no other key.
-- A key of the second object that the first lacks is not covered.
not_covered :
    (fs gs : Fields) (k : String) (w : Json)
    → covered gs fs ≡ true
    → lookup k fs ≡ none
    → lookup k gs ≡ some w
    → ⊥
not_covered fs gs k w c e f = ground (arith, covered-has gs fs k)

object-view :
    (fs gs : Fields)
    → ((k : String) (v : Json)
        → lookup k fs ≡ some v
        → (w : Json) × (lookup k gs ≡ some w) × SameView v w)
    → covered gs fs ≡ true
    → SameView (obj fs) (obj gs)
object-view fs gs h c =
    SameView-children (obj fs) (obj gs) refl (elim [ item i ↦ λ p. refl | member k ↦ at k ])
  where
    at : (k : String) → SameView (or_null (lookup k fs)) (or_null (lookup k gs))
    at k = elim (Option-cases (lookup k fs)) [
      | inr (v, e) ↦ let (w, f, s) = h k v e in rw (e, f) s
      | inl e ↦ elim (Option-cases (lookup k gs)) [
        | inl f ↦ rw (e, f) (λ p. refl)
        | inr (w, f) ↦ absurd (not_covered fs gs k w c e f)
      ]
    ]

-- Deeply equal values read alike.
mutual
  unfolding deep_equal lookup

  pub deep_equal-view : (a b : Json) → deep_equal a b ≡ true → SameView a b
  deep_equal-view null null h = λ p. refl
  deep_equal-view (bool a) (bool b) h = rw (bool_eq-eq a b h) (λ p. refl)
  deep_equal-view (num a) (num b) h = rw (number_eq-eq a b h) (λ p. refl)
  deep_equal-view (str a) (str b) h = rw ((eq_iff a b).0 h) (λ p. refl)
  deep_equal-view (arr xs) (arr ys) h =
      let e = equal_items-view xs ys h in
      SameView-children (arr xs) (arr ys) (ap array_shape e.0)
        (elim [ member k ↦ λ p. refl | item i ↦ e.1 i ])
  deep_equal-view (obj fs) (obj gs) h =
      object-view fs gs (equal_fields-view fs gs (and_left _ _ h)) (and_right _ _ h)
  deep_equal-view null _ h = cc
  deep_equal-view (bool a) _ h = cc
  deep_equal-view (num a) _ h = cc
  deep_equal-view (str a) _ h = cc
  deep_equal-view (arr xs) _ h = cc
  deep_equal-view (obj fs) _ h = cc

  equal_items-view :
      (xs ys : Items)
      → equal_items xs ys ≡ true
      → (items_length xs ≡ items_length ys) × ((i : ℕ) → SameView (nth i xs) (nth i ys))
  equal_items-view nil nil h = (refl, λ i p. refl)
  equal_items-view nil (cons y ys) h = cc
  equal_items-view (cons x xs) nil h = cc
  equal_items-view (cons x xs) (cons y ys) h =
      let here = deep_equal-view x y (and_left _ _ h) in
      let there = equal_items-view xs ys (and_right _ _ h) in
      (ap suc there.0, elim [ zero ↦ here | suc i ↦ there.1 i ])

  equal_fields-view :
      (fs gs : Fields)
      → equal_fields fs gs ≡ true
      → (k : String) (v : Json) → lookup k fs ≡ some v
      → (w : Json) × (lookup k gs ≡ some w) × SameView v w
  equal_fields-view end gs h k v e = cc
  equal_fields-view (field j u fs) gs h k v e = elim (Option-cases (lookup j gs)) [
    | inl f ↦ absurd (ground (arith, f))
    | inr (w, f) ↦
        let here = deep_equal-view u w (and_left _ _ (rw (f, equal_fields) at h)) in
        let there = equal_fields-view fs gs (and_right _ _ h) k v in
        elim (Bool-cases (j == k)) [
          | inl q ↦
              let found : some u ≡ some v = rw (q, lookup) at e in
              let same : u ≡ v = cc found in
              (
                w,
                subst (λ (x : String). lookup x gs ≡ some w) ((eq_iff j k).0 q) f,
                subst (λ (x : Json). SameView x w) same here,
              )
          | inr q ↦ there (rw (q, lookup) at e)
        ]
  ]
