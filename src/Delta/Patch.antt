-- ===== src/Delta/Patch.antt =====
-- The meaning of a delta of internal/delta, independent of how it is calculated: its stanzas are
-- applied in their order, each setting the value at the end of its key.
use go_kube_ops_view.Prelude.{
  String, ◌≡◌, refl, ◌∙◌, some, List, [], ◌∷◌, ◌++◌, map, arith, eq_iff, eq_refl, ◌==◌,
  if◌then◌else◌,
}
use go_kube_ops_view.Json.{Json, obj, Fields, end, field, lookup}
use go_kube_ops_view.Json.View.{member, child, or_null}
use go_kube_ops_view.Delta.{DiffStanza}

unfoldable pub put_field : String → Json → Fields → Fields
put_field k v end = field k v end
put_field k v (field j w fs) =
    let rest = put_field k v fs in if j == k then field k v fs else field j w rest

pub lookup-put_field :
    (k j : String) (v : Json) (fs : Fields)
    → lookup j (put_field k v fs) ≡ (if k == j then some v else lookup j fs)
unfolding lookup put_field
lookup-put_field k j v end = refl
lookup-put_field k j v (field i w fs) =
    ground (arith, eq_iff k j, eq_iff i k, eq_iff i j, lookup-put_field k j v fs)

-- The members of an object, or none.
abbrev pub members : Json → Fields
members (obj fs) = fs
members _ = end

unfoldable pub set_at : List String → Json → Json → Json
unfolding put_field
set_at [] v j = v
set_at (k ∷ key) v j = obj (put_field k (set_at key v (child j (member k))) (members j))

unfoldable pub patch : List (DiffStanza (List String)) → Json → Json
patch [] j = j
patch (d ∷ ds) j = patch ds (set_at d.key d.value j)

abbrev pub IsObject : Json → Type 0
IsObject j = j ≡ obj (members j)

pub patch-append :
    (ds es : List (DiffStanza (List String))) (j : Json)
    → patch (ds ++ es) j ≡ patch es (patch ds j)
unfolding patch
patch-append [] es j = refl
patch-append (d ∷ ds) es j = patch-append ds es (set_at d.key d.value j)

-- The same changes further down.
abbrev pub below : String → DiffStanza (List String) → DiffStanza (List String)
below k d = record { key = k ∷ d.key; value = d.value }

-- Changes below one member of an object change that member alone.
pub child-patch-below :
    (k : String) (ds : List (DiffStanza (List String))) (fs : Fields)
    → (gs : Fields) × (patch (map (below k) ds) (obj fs) ≡ obj gs)
      × ((j : String)
          → or_null (lookup j gs)
            ≡ (if k == j then patch ds (or_null (lookup k fs)) else or_null (lookup j fs)))
unfolding patch set_at
child-patch-below k [] fs = (fs, refl, λ j. ground (arith, eq_iff k j))
child-patch-below k (d ∷ ds) fs =
    let v = set_at d.key d.value (or_null (lookup k fs)) in
    let (gs, e, f) = child-patch-below k ds (put_field k v fs) in
    (
      gs,
      e,
      λ j.
          f j
          ∙ ground
              (arith, eq_refl k, lookup-put_field k k v fs, lookup-put_field k j v fs, eq_iff k j),
    )
