-- ===== src/Delta/Calculator/Aliasing.antt =====
-- `diff` of internal/delta/calculator.go with Go slices for keys: the `append` of `keysetDiff` lets
-- siblings share an array.
use mathlib.Core.List.{append-nil}
use go_kube_ops_view.Prelude.{
  String, ◌≡◌, ◌∙◌, ap, true, false, List, [], ◌∷◌, ◌++◌, map, arith, eq_iff, eq_refl, ◌==◌,
}
use go_kube_ops_view.Json.{
  Json, null, bool, num, str, arr, obj, Fields, end, field, lookup, covered, deep_equal,
}
use go_kube_ops_view.Delta.{DiffStanza, Keys}
use go_kube_ops_view.Delta.Slices.{slices, paths, append_slice}
use go_kube_ops_view.Delta.Calculator.{
  Diff, replace, diff, delta, diff_with, is_terminal, is_object, structure_worth_investigating,
  low_commonality, low_object_commonality, keyset_kept, keyset_added,
}

abbrev one : String → Json → Json
one k x = obj (field k x end)

abbrev two : String → Json → String → Json → Json
two j x k y = obj (field j x (field k y end))

one-differs :
    (k : String) (x y : Json) → deep_equal x y ≡ false → deep_equal (one k x) (one k y) ≡ false
unfolding deep_equal lookup covered
one-differs k x y h = ground (arith, eq_refl k, h)

one-common :
    (k : String) (x y : Json) → low_object_commonality (field k x end) (field k y end) ≡ false
unfolding low_object_commonality lookup
one-common k x y = ground (arith, eq_refl k)

two-differs :
    (j k : String) (x x' y : Json)
    → deep_equal x x' ≡ false
    → deep_equal (two j x k y) (two j x' k y) ≡ false
unfolding deep_equal lookup covered
two-differs j k x x' y d = ground (arith, eq_refl j, d)

two-common :
    (j k : String) (x x' y : Json)
    → low_object_commonality (field j x (field k y end)) (field j x' (field k y end)) ≡ false
unfolding low_object_commonality lookup
two-common j k x x' y = ground (arith, eq_refl j, eq_refl k)

module _ (keys : Keys) where
  abbrev keyset : Fields → Fields → keys.Key → keys.Heap → Diff keys
  keyset fs gs key h =
      let (kept, h') = keyset_kept keys fs gs key h in
      let (added, h'') = keyset_added keys fs gs key h' in (kept ++ added, h'')

  object-diff :
      (fs gs : Fields) (key : keys.Key) (h : keys.Heap)
      → deep_equal (obj fs) (obj gs) ≡ false
      → low_object_commonality fs gs ≡ false
      → diff keys (obj fs) (obj gs) key h ≡ keyset fs gs key h
  unfolding diff diff_with low_commonality is_object is_terminal structure_worth_investigating
  object-diff fs gs key h d c = ground (arith, d, c)

  one-kept :
      (k : String) (x y : Json) (key : keys.Key) (h : keys.Heap)
      → keyset (field k x end) (field k y end) key h
        ≡ diff keys x y (keys.append key k h).0 (keys.append key k h).1
  unfolding diff lookup keyset_added
  one-kept k x y key h = ground (
    arith,
    eq_refl k,
    append-nil (diff keys x y (keys.append key k h).0 (keys.append key k h).1).0,
  )

  -- `diff` goes through an object with one member to that member.
  one-diff :
      (k : String) (x y : Json) (key : keys.Key) (h : keys.Heap)
      → deep_equal x y ≡ false
      → diff keys (one k x) (one k y) key h
        ≡ diff keys x y (keys.append key k h).0 (keys.append key k h).1
  one-diff k x y key h d =
      object-diff (field k x end) (field k y end) key h (one-differs k x y d) (one-common k x y)
      ∙ one-kept k x y key h

  with_same :
      (ks : Diff keys) (y y' : Json) (key : keys.Key) (h : keys.Heap)
      → deep_equal y y' ≡ true
      → diff_with keys ks y y' key h ≡ ([], h)
  unfolding diff_with
  with_same ks y y' key h e = ground (arith, e)

  diff-same :
      (y y' : Json) (key : keys.Key) (h : keys.Heap)
      → deep_equal y y' ≡ true
      → diff keys y y' key h ≡ ([], h)
  unfolding diff
  diff-same null y' key h e = with_same ([], h) null y' key h e
  diff-same (bool u) y' key h e = with_same ([], h) (bool u) y' key h e
  diff-same (num u) y' key h e = with_same ([], h) (num u) y' key h e
  diff-same (str u) y' key h e = with_same ([], h) (str u) y' key h e
  diff-same (arr u) y' key h e = with_same ([], h) (arr u) y' key h e
  diff-same (obj u) y' key h e = with_same _ (obj u) y' key h e

  with_replaced :
      (ks : Diff keys) (x x' : Json) (key : keys.Key) (h : keys.Heap)
      → deep_equal x x' ≡ false
      → is_terminal x' ≡ true
      → diff_with keys ks x x' key h ≡ replace keys key x' h
  unfolding diff_with
  with_replaced ks x x' key h d t = ground (arith, d, t)

  diff-replaced :
      (x x' : Json) (key : keys.Key) (h : keys.Heap)
      → deep_equal x x' ≡ false
      → is_terminal x' ≡ true
      → diff keys x x' key h ≡ replace keys key x' h
  unfolding diff
  diff-replaced null x' key h d t = with_replaced ([], h) null x' key h d t
  diff-replaced (bool u) x' key h d t = with_replaced ([], h) (bool u) x' key h d t
  diff-replaced (num u) x' key h d t = with_replaced ([], h) (num u) x' key h d t
  diff-replaced (str u) x' key h d t = with_replaced ([], h) (str u) x' key h d t
  diff-replaced (arr u) x' key h d t = with_replaced ([], h) (arr u) x' key h d t
  diff-replaced (obj u) x' key h d t = with_replaced _ (obj u) x' key h d t

  -- Two members, of which the first changes: the second one's key is appended all the same.
  two-kept :
      (j k : String) (x x' y : Json) (key : keys.Key) (h : keys.Heap)
      → (j == k) ≡ false
      → deep_equal x x' ≡ false
      → is_terminal x' ≡ true
      → deep_equal y y ≡ true
      → keyset (field j x (field k y end)) (field j x' (field k y end)) key h ≡ (
        record { key = (keys.append key j h).0; value = x' } ∷ [],
        (keys.append key k (keys.append key j h).1).1,
      )
  unfolding diff lookup keyset_added
  two-kept j k x x' y key h n d t e =
      let (kj, hj) = keys.append key j h in
      let (kk, hk) = keys.append key k hj in
      ground (
        arith,
        eq_refl j,
        eq_refl k,
        eq_iff j k,
        n,
        diff-replaced x x' kj hj d t,
        diff-same y y kk hk e,
      )

  two-diff :
      (j k : String) (x x' y : Json) (key : keys.Key) (h : keys.Heap)
      → (j == k) ≡ false
      → deep_equal x x' ≡ false
      → is_terminal x' ≡ true
      → deep_equal y y ≡ true
      → diff keys (two j x k y) (two j x' k y) key h ≡ (
        record { key = (keys.append key j h).0; value = x' } ∷ [],
        (keys.append key k (keys.append key j h).1).1,
      )
  two-diff j k x x' y key h n d t e =
      object-diff (field j x (field k y end)) (field j x' (field k y end)) key h
        (two-differs j k x x' y d) (two-common j k x x' y)
      ∙ two-kept j k x x' y key h n d t e

  abbrev deep : String → String → String → Json → Json
  deep a b c x = one a (one b (one c x))

  -- The key and the arrays at the third level.
  abbrev third : String → String → String → keys.Heap → keys.Key × keys.Heap
  third a b c h =
      let (k1, h1) = keys.append keys.root a h in
      let (k2, h2) = keys.append k1 b h1 in keys.append k2 c h2

  deep-diff :
      (a b c : String) (x y : Json) (h : keys.Heap)
      → deep_equal x y ≡ false
      → diff keys (deep a b c x) (deep a b c y) keys.root h
        ≡ diff keys x y (third a b c h).0 (third a b c h).1
  deep-diff a b c x y h d =
      let (k1, h1) = keys.append keys.root a h in
      let (k2, h2) = keys.append k1 b h1 in
      let d1 = one-differs c x y d in
      let d2 = one-differs b (one c x) (one c y) d1 in
      one-diff a (one b (one c x)) (one b (one c y)) keys.root h d2
      ∙ one-diff b (one c x) (one c y) k1 h1 d1
      ∙ one-diff c x y k2 h2 d

abbrev change : List String → Json → DiffStanza (List String)
change key v = record { key = key; value = v }

-- The stanzas as their reader finds them.
abbrev report : (keys : Keys) → Diff keys → List (DiffStanza (List String))
report keys d = map (λ s. change (keys.read d.1 s.key) s.value) d.0

-- In an object three levels down, the new value of a member is reported under the key of another
-- member, which did not change and which the loop reaches later: for plain paths the same algorithm
-- reports it under the key of its own member.
pub wrong_member :
    (a b c j k : String) (x x' y : Json)
    → (j == k) ≡ false
    → deep_equal x x' ≡ false
    → is_terminal x' ≡ true
    → deep_equal y y ≡ true
    → let l = one a (one b (one c (two j x k y))) in
      let r = one a (one b (one c (two j x' k y))) in
      (delta slices [] l r ≡ change (a ∷ b ∷ c ∷ k ∷ []) x' ∷ [])
      × (delta paths tt l r ≡ change (a ∷ b ∷ c ∷ j ∷ []) x' ∷ [])
unfolding delta append_slice
wrong_member a b c j k x x' y n d t e = (
  ap (report slices) (
      deep-diff slices a b c (two j x k y) (two j x' k y) [] (two-differs j k x x' y d)
      ∙ two-diff slices j k x x' y (third slices a b c []).0 (third slices a b c []).1 n d t e),
  ap (report paths) (
      deep-diff paths a b c (two j x k y) (two j x' k y) tt (two-differs j k x x' y d)
      ∙ two-diff paths j k x x' y (third paths a b c tt).0 (third paths a b c tt).1 n d t e),
)
