-- ===== src/Delta/Calculator/Members.antt =====
-- `keysetDiff` of internal/delta/calculator.go with plain paths for keys: what its stanzas make of
-- each member of an object.
use go_kube_ops_view.Prelude.{
  String, ◌≡◌, refl, ◌∙◌, ap, Bool, true, false, Option, none, some, [], ◌∷◌, ◌++◌, map, arith,
  eq_iff, ◌==◌, if◌then◌else◌, Option-cases, inl, inr,
}
use go_kube_ops_view.Json.{Json, null, obj, Fields, end, field, lookup, has}
use go_kube_ops_view.Json.View.{or_null, lookup_of_not_has}
use go_kube_ops_view.Delta.Slices.{paths}
use go_kube_ops_view.Delta.Patch.{patch, patch-append, set_at, below, child-patch-below}
use go_kube_ops_view.Delta.Calculator.{Stanzas, keyset_added, keyset_kept, diff}
use go_kube_ops_view.Delta.Calculator.Prefix.{diff-prefix, keyset_added-prefix}

abbrev pub set_here : Json → Stanzas paths
set_here v = record { key = []; value = v } ∷ []

abbrev pub changes : Json → Json → Stanzas paths
changes l r = (diff paths l r [] tt).0

-- What becomes of a member of the left object: set to null, or changed.
abbrev pub piece : Json → Option Json → Stanzas paths
piece v none = set_here null
piece v (some w) = changes v w

abbrev pub kept : Fields → Fields → Stanzas paths
kept fs gs = (keyset_kept paths fs gs [] tt).0

abbrev pub added : Fields → Fields → Stanzas paths
added fs gs = (keyset_added paths fs gs [] tt).0

kept-cons :
    (k : String) (v : Json) (fs gs : Fields)
    → kept (field k v fs) gs ≡ map (below k) (piece v (lookup k gs)) ++ kept fs gs
unfolding diff
kept-cons k v fs gs = elim (Option-cases (lookup k gs)) [
  | inl e ↦ rw e refl
  | inr (w, e) ↦ rw e (rw (diff-prefix v w (k ∷ []) tt) refl)
]

abbrev added_here : String → Json → Bool → Stanzas paths
added_here k w true = []
added_here k w false = set_here w

added-cons :
    (k : String) (w : Json) (fs gs : Fields)
    → added fs (field k w gs) ≡ map (below k) (added_here k w (has k fs)) ++ added fs gs
unfolding keyset_added
added-cons k w fs gs = ground (arith, keyset_added-prefix fs gs [] tt)

-- No key occurs twice.
abbrev pub Distinct : Fields → Type 0
Distinct end = Unit
Distinct (field k v fs) = (has k fs ≡ false) × Distinct fs

abbrev pub after_kept : Option Json → Option Json → Json → Json
after_kept none r x = x
after_kept (some v) r x = patch (piece v r) x

abbrev pub after_added : Option Json → Bool → Json → Json
after_added none shared x = x
after_added (some w) true x = x
after_added (some w) false x = w

-- An object whose members are known.
abbrev pub Reads : Json → (String → Json) → Type 0
Reads j f = (fs : Fields) × (j ≡ obj fs) × ((k : String) → or_null (lookup k fs) ≡ f k)

kept_at :
    (k j : String) (v : Json) (fs gs cur : Fields) (y : Json)
    → lookup k fs ≡ none
    → y ≡ (
        if k == j
        then patch (piece v (lookup k gs)) (or_null (lookup k cur))
        else or_null (lookup j cur))
    → after_kept (lookup j fs) (lookup j gs) y
      ≡ after_kept (lookup j (field k v fs)) (lookup j gs) (or_null (lookup j cur))
unfolding lookup
kept_at k j v fs gs cur y n h = ground (arith, eq_iff k j, n, h)

added_at :
    (k j : String) (w : Json) (fs gs cur : Fields) (y : Json)
    → lookup k gs ≡ none
    → y ≡ (
        if k == j
        then patch (added_here k w (has k fs)) (or_null (lookup k cur))
        else or_null (lookup j cur))
    → after_added (lookup j gs) (has j fs) y
      ≡ after_added (lookup j (field k w gs)) (has j fs) (or_null (lookup j cur))
unfolding lookup patch set_at
added_at k j w fs gs cur y n h = ground (arith, eq_iff k j, n, h)

pub patch-kept :
    (fs gs cur : Fields)
    → Distinct fs
    → Reads
        (patch (kept fs gs) (obj cur))
        (λ j. after_kept (lookup j fs) (lookup j gs) (or_null (lookup j cur)))
unfolding diff patch lookup
patch-kept end gs cur d = (cur, refl, λ j. refl)
patch-kept (field k v fs) gs cur d =
    let ds = piece v (lookup k gs) in
    let (cur1, e1, f1) = child-patch-below k ds cur in
    let (cur2, e2, f2) = patch-kept fs gs cur1 d.1 in
    let none_left = lookup_of_not_has k fs d.0 in
    (
      cur2,
      ap (λ c. patch c (obj cur)) (kept-cons k v fs gs)
          ∙ patch-append (map (below k) ds) (kept fs gs) (obj cur)
          ∙ ap (patch (kept fs gs)) e1
          ∙ e2,
      λ j. f2 j ∙ kept_at k j v fs gs cur (or_null (lookup j cur1)) none_left (f1 j),
    )

pub patch-added :
    (fs gs cur : Fields)
    → Distinct gs
    → Reads
        (patch (added fs gs) (obj cur))
        (λ j. after_added (lookup j gs) (has j fs) (or_null (lookup j cur)))
unfolding keyset_added patch lookup
patch-added fs end cur d = (cur, refl, λ j. refl)
patch-added fs (field k w gs) cur d =
    let ds = added_here k w (has k fs) in
    let (cur1, e1, f1) = child-patch-below k ds cur in
    let (cur2, e2, f2) = patch-added fs gs cur1 d.1 in
    let none_left = lookup_of_not_has k gs d.0 in
    (
      cur2,
      ap (λ c. patch c (obj cur)) (added-cons k w fs gs)
          ∙ patch-append (map (below k) ds) (added fs gs) (obj cur)
          ∙ ap (patch (added fs gs)) e1
          ∙ e2,
      λ j. f2 j ∙ added_at k j w fs gs cur (or_null (lookup j cur1)) none_left (f1 j),
    )
