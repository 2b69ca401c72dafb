-- ===== src/Delta/Calculator/Sound.antt =====
-- `diff` of internal/delta/calculator.go with plain paths for keys: applying a delta to the state
-- that it was calculated from gives the state that it was calculated for.
use go_kube_ops_view.Prelude.{
  ℕ, zero, suc, String, ◌≡◌, refl, ◌∙◌, sym, ap, subst, true, false, some, [], ◌∷◌, ◌++◌, map,
  arith, ◌==◌, ◌&&◌, ◌||◌, not, nat_eq, ◌⊎◌, Bool-cases, Option-cases, inl, inr,
}
use go_kube_ops_view.Json.{
  Json, null, bool, num, str, arr, obj, Items, nil, cons, Fields, end, field, lookup, has,
  items_length, deep_equal,
}
use go_kube_ops_view.Json.View.{
  SameView, SameView-children, deep_equal-view, member, item, nth, or_null, array_shape,
}
use go_kube_ops_view.Delta.Slices.{paths}
use go_kube_ops_view.Delta.Patch.{patch, patch-append, set_at}
use go_kube_ops_view.Delta.Calculator.{
  Stanzas, Diff, replace, diff, delta, diff_with, array_diff, identical, is_object, is_array,
  is_terminal, structure_worth_investigating, low_commonality, fields_of,
}
use go_kube_ops_view.Delta.Calculator.Members.{
  changes, kept, added, Distinct, patch-kept, patch-added, after_kept, after_added,
}

-- No object of a value has a key twice, as far as `diff` goes into it.
unfoldable mutual
  pub IsUnique : Json → Type 0
  IsUnique (obj fs) = AreUnique fs
  IsUnique null = Unit
  IsUnique (bool b) = Unit
  IsUnique (num n) = Unit
  IsUnique (str s) = Unit
  IsUnique (arr xs) = Unit

  pub AreUnique : Fields → Type 0
  AreUnique end = Unit
  AreUnique (field k v fs) = (has k fs ≡ false) × IsUnique v × AreUnique fs

AreUnique-Distinct : (fs : Fields) → AreUnique fs → Distinct fs
unfolding AreUnique
AreUnique-Distinct end u = tt
AreUnique-Distinct (field k v fs) u = (u.0, AreUnique-Distinct fs u.2)

AreUnique-lookup :
    (fs : Fields) (k : String) (v : Json) → AreUnique fs → lookup k fs ≡ some v → IsUnique v
unfolding AreUnique lookup
AreUnique-lookup end k v u e = cc
AreUnique-lookup (field j w fs) k v u e = elim (Bool-cases (j == k)) [
  | inl q ↦
      let found : some w ≡ some v = rw (q, lookup) at e in
      let same : w ≡ v = cc found in subst IsUnique same u.1
  | inr q ↦ AreUnique-lookup fs k v u.2 (rw (q, lookup) at e)
]

identical-view :
    (xs ys : Items)
    → items_length xs ≡ items_length ys
    → identical xs ys ≡ true
    → (i : ℕ) → SameView (nth i xs) (nth i ys)
identical-view nil nil l h i = λ p. refl
identical-view nil (cons y ys) l h i = absurd (ground (arith, l))
identical-view (cons x xs) nil l h i = absurd (ground (arith, l))
identical-view (cons x xs) (cons y ys) l h i = elim (Bool-cases (deep_equal x y)) [
  | inr q ↦ absurd (ground (arith, h, q))
  | inl q ↦
      let there = identical-view xs ys (ground (arith, l)) (ground (arith, h, q)) in
      at i (deep_equal-view x y q) there
]
  where
    at :
        (i : ℕ)
        → SameView x y
        → ((i : ℕ) → SameView (nth i xs) (nth i ys))
        → SameView (nth i (cons x xs)) (nth i (cons y ys))
    at zero here there = here
    at (suc i) here there = there i

-- The outcome of `arrayDiff` for two arrays.
array_diff-cases :
    (xs ys : Items)
    → (array_diff paths (arr xs) (arr ys) [] tt ≡ replace paths [] (arr ys) tt)
      ⊎ ((array_diff paths (arr xs) (arr ys) [] tt ≡ ([], tt))
          × (items_length xs ≡ items_length ys)
          × (identical xs ys ≡ true))
unfolding array_diff
array_diff-cases xs ys = elim (Bool-cases (nat_eq (items_length xs) (items_length ys))) [
  | inr e ↦ inl (ground (arith, e))
  | inl e ↦ elim (Bool-cases (identical xs ys)) [
    | inr f ↦ inl (ground (arith, e, f))
    | inl f ↦ inr (ground (arith, e, f), ground (arith, e), f)
  ]
]

-- The ways that `diff` can go.
data Way (ks : Diff paths) (l r : Json) : Type 0 where
  equal : diff_with paths ks l r [] tt ≡ ([], tt) → deep_equal l r ≡ true → Way ks l r
  replaced : diff_with paths ks l r [] tt ≡ replace paths [] r tt → Way ks l r
  descended :
      diff_with paths ks l r [] tt ≡ ks → is_object l ≡ true → is_object r ≡ true → Way ks l r
  compared :
      diff_with paths ks l r [] tt ≡ array_diff paths l r [] tt
      → is_array l ≡ true
      → is_array r ≡ true
      → Way ks l r

way : (ks : Diff paths) (l r : Json) → Way ks l r
unfolding diff_with
way ks l r = elim (Bool-cases (deep_equal l r)) [
  | inl e ↦ equal (ground (arith, e)) e
  | inr e ↦
      elim (Bool-cases
        (is_terminal l || (is_terminal r || not (structure_worth_investigating l r)))) [
          | inl t ↦ replaced (ground (arith, e, t))
          | inr t ↦ elim (Bool-cases (low_commonality l r)) [
            | inl c ↦ replaced (ground (arith, e, t, c))
            | inr c ↦ elim (Bool-cases (is_object l && is_object r)) [
              | inl o ↦
                  descended (ground (arith, e, t, c, o)) (ground (arith, o)) (ground (arith, o))
              | inr o ↦ elim (Bool-cases (is_array l && is_array r)) [
                | inl a ↦
                    compared (ground (arith, e, t, c, o, a)) (ground (arith, a)) (ground (arith, a))
                | inr a ↦ replaced (ground (arith, e, t, c, o, a))
              ]
            ]
          ]
        ]
]

-- The changes of a result make the left value read as the right one.
abbrev Makes : Json → Json → Diff paths → Type 0
Makes l r d = SameView (patch d.0 l) r

replace-Makes : (l r : Json) → Makes l r (replace paths [] r tt)
unfolding patch set_at
replace-Makes l r p = refl

array_diff-Makes :
    (l r : Json) → is_array l ≡ true → is_array r ≡ true → Makes l r (array_diff paths l r [] tt)
unfolding is_array patch
array_diff-Makes (arr xs) (arr ys) a b = elim (array_diff-cases xs ys) [
  | inl e ↦ subst (Makes (arr xs) (arr ys)) (sym e) (replace-Makes (arr xs) (arr ys))
  | inr (e, l, i) ↦ subst (Makes (arr xs) (arr ys)) (sym e) (
      SameView-children (arr xs) (arr ys) (ap array_shape l)
        (elim [ member k ↦ λ p. refl | item n ↦ identical-view xs ys l i n ]))
]
array_diff-Makes (arr xs) _ a b = cc
array_diff-Makes _ r a b = cc

diff_with-Makes :
    (ks : Diff paths) (l r : Json)
    → (is_object l ≡ true → is_object r ≡ true → Makes l r ks)
    → Makes l r (diff_with paths ks l r [] tt)
unfolding patch
diff_with-Makes ks l r h = elim (way ks l r) [
  | equal e q ↦ subst (Makes l r) (sym e) (deep_equal-view l r q)
  | replaced e ↦ subst (Makes l r) (sym e) (replace-Makes l r)
  | descended e a b ↦ subst (Makes l r) (sym e) (h a b)
  | compared e a b ↦ subst (Makes l r) (sym e) (array_diff-Makes l r a b)
]

-- Each member of both objects is changed into the right one's.
Members : Fields → Type 0
Members fs =
    (k : String) (v w : Json) → lookup k fs ≡ some v → IsUnique w → Makes v w (changes v w, tt)

member_value :
    (fs gs : Fields) (k : String)
    → Members fs
    → AreUnique gs
    → SameView
        (after_added
          (lookup k gs)
          (has k fs)
          (after_kept (lookup k fs) (lookup k gs) (or_null (lookup k fs))))
        (or_null (lookup k gs))
unfolding Members patch set_at
member_value fs gs k h u = elim (Option-cases (lookup k fs)) [
  | inl e ↦ elim (Option-cases (lookup k gs)) [
    | inl f ↦ rw (e, f) (λ p. refl)
    | inr (w, f) ↦ rw (e, f, has) (λ p. refl)
  ]
  | inr (v, e) ↦ elim (Option-cases (lookup k gs)) [
    | inl f ↦ rw (e, f) (λ p. refl)
    | inr (w, f) ↦ rw (e, f, has) (h k v w e (AreUnique-lookup gs k w u f))
  ]
]

keyset-Makes :
    (fs gs : Fields)
    → Members fs
    → AreUnique fs
    → AreUnique gs
    → Makes (obj fs) (obj gs) (kept fs gs ++ added fs gs, tt)
keyset-Makes fs gs h u w =
    let (cur1, e1, f1) = patch-kept fs gs fs (AreUnique-Distinct fs u) in
    let (cur2, e2, f2) = patch-added fs gs cur1 (AreUnique-Distinct gs w) in
    let whole : patch (kept fs gs ++ added fs gs) (obj fs) ≡ obj cur2 =
      patch-append (kept fs gs) (added fs gs) (obj fs) ∙ ap (patch (added fs gs)) e1 ∙ e2 in
    subst (λ (x : Json). SameView x (obj gs)) (sym whole)
      (SameView-children (obj cur2) (obj gs) refl (elim [
        | item n ↦ λ p. refl
        | member k ↦
            let value = f2 k ∙ ap (after_added (lookup k gs) (has k fs)) (f1 k) in
            subst (λ (x : Json). SameView x (or_null (lookup k gs))) (sym value)
              (member_value fs gs k h w)
      ]))

mutual
  unfolding IsUnique AreUnique diff is_object Members lookup

  diff-Makes : (l r : Json) → IsUnique l → IsUnique r → Makes l r (changes l r, tt)
  diff-Makes (obj fs) (obj gs) u w =
      diff_with-Makes (kept fs gs ++ added fs gs, tt) (obj fs) (obj gs)
        (λ a b. keyset-Makes fs gs (Members-all fs u) u w)
  diff-Makes (obj fs) r u w =
      let gs = fields_of paths r in
      diff_with-Makes (kept fs gs ++ added fs gs, tt) (obj fs) r (λ a b. cc b)
  diff-Makes null r u w = diff_with-Makes ([], tt) null r (λ a b. cc a)
  diff-Makes (bool t) r u w = diff_with-Makes ([], tt) (bool t) r (λ a b. cc a)
  diff-Makes (num n) r u w = diff_with-Makes ([], tt) (num n) r (λ a b. cc a)
  diff-Makes (str t) r u w = diff_with-Makes ([], tt) (str t) r (λ a b. cc a)
  diff-Makes (arr xs) r u w = diff_with-Makes ([], tt) (arr xs) r (λ a b. cc a)

  Members-all : (fs : Fields) → AreUnique fs → Members fs
  Members-all end u k v w e q = cc e
  Members-all (field j x fs) u k v w e q = elim (Bool-cases (j == k)) [
    | inl i ↦
        let found : some x ≡ some v = rw (i, lookup) at e in
        let same : x ≡ v = cc found in
        subst (λ (y : Json). Makes y w (changes y w, tt)) same (diff-Makes x w u.1 q)
    | inr i ↦ Members-all fs u.2 k v w (rw (i, lookup) at e) q
  ]

map_same : (ds : Stanzas paths) → map (λ d. record { key = d.key; value = d.value }) ds ≡ ds
map_same [] = refl
map_same (d ∷ ds) = ap (λ (es : Stanzas paths). d ∷ es) (map_same ds)

-- A delta whose keys are the paths that they are meant to be is right: for any two decoded values
-- without repeated keys, applying the delta between them to the first gives a value in which every
-- path reads as it does in the second, a missing key reading as null.
pub delta_lem : (l r : Json) → IsUnique l → IsUnique r → SameView (patch (delta paths tt l r) l) r
unfolding delta
delta_lem l r u w =
    subst (λ ds. SameView (patch ds l) r) (sym (map_same (changes l r))) (diff-Makes l r u w)
