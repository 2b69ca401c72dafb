-- ===== src/Delta/Calculator/Prefix.antt =====
-- With plain paths for keys, `diff` (internal/delta/calculator.go) under a key is `diff` under the
-- empty key with the key put in front.
use mathlib.Core.List.{append-nil, append_assoc, map-append}
use go_kube_ops_view.Prelude.{
  String, ◌≡◌, refl, sym, ap₂, List, [], ◌∷◌, ◌++◌, map, arith, Option-cases, inl, inr,
}
use go_kube_ops_view.Json.{Json, null, bool, num, str, arr, obj, Fields, end, field, lookup}
use go_kube_ops_view.Delta.{DiffStanza}
use go_kube_ops_view.Delta.Slices.{paths}
use go_kube_ops_view.Delta.Calculator.{
  Stanzas, Diff, replace, array_diff, diff_with, keyset_added, keyset_kept, diff, fields_of,
}

abbrev pub prefix : List String → DiffStanza (List String) → DiffStanza (List String)
prefix key d = record { key = key ++ d.key; value = d.value }

abbrev pub prefixed : List String → Diff paths → Diff paths
prefixed key d = (map (prefix key) d.0, d.1)

replace-prefix :
    (key : List String) (r : Json) (h : Unit {0})
    → replace paths key r h ≡ prefixed key (replace paths [] r h)
replace-prefix key r h = rw append-nil

array_diff-prefix :
    (l r : Json) (key : List String) (h : Unit {0})
    → array_diff paths l r key h ≡ prefixed key (array_diff paths l r [] h)
unfolding array_diff
array_diff-prefix (arr xs) (arr ys) key h = ground (arith, replace-prefix key (arr ys) h)
array_diff-prefix (arr xs) r key h = replace-prefix key r h
array_diff-prefix _ r key h = replace-prefix key r h

diff_with-prefix :
    (ks : Diff paths) (l r : Json) (key : List String) (h : Unit {0})
    → diff_with paths (prefixed key ks) l r key h ≡ prefixed key (diff_with paths ks l r [] h)
unfolding diff_with
diff_with-prefix ks l r key h = ground (arith, replace-prefix key r h, array_diff-prefix l r key h)

map-prefix-prefix :
    (key key' : List String) (ds : Stanzas paths)
    → map (prefix key) (map (prefix key') ds) ≡ map (prefix (key ++ key')) ds
map-prefix-prefix key key' [] = refl
map-prefix-prefix key key' (d ∷ ds) =
    ap₂ (λ (x : List String) (y : Stanzas paths). record { key = x; value = d.value } ∷ y)
      (sym (append_assoc key key' d.key)) (map-prefix-prefix key key' ds)

pub keyset_added-prefix :
    (fs gs : Fields) (key : List String) (h : Unit {0})
    → keyset_added paths fs gs key h ≡ prefixed key (keyset_added paths fs gs [] h)
unfolding keyset_added
keyset_added-prefix fs end key h = refl
keyset_added-prefix fs (field k w gs) key h = ground (arith, keyset_added-prefix fs gs key h)

mutual
  unfolding diff

  pub diff-prefix :
      (l r : Json) (key : List String) (h : Unit {0})
      → diff paths l r key h ≡ prefixed key (diff paths l r [] h)
  diff-prefix null r key h = diff_with-prefix ([], h) null r key h
  diff-prefix (bool b) r key h = diff_with-prefix ([], h) (bool b) r key h
  diff-prefix (num n) r key h = diff_with-prefix ([], h) (num n) r key h
  diff-prefix (str t) r key h = diff_with-prefix ([], h) (str t) r key h
  diff-prefix (arr xs) r key h = diff_with-prefix ([], h) (arr xs) r key h
  diff-prefix (obj fs) r key h =
      let gs = fields_of paths r in
      rw (kept-prefix fs gs key h, keyset_added-prefix fs gs key h, ← map-append)
        (diff_with-prefix ((keyset_kept paths fs gs [] h).0 ++ (keyset_added paths fs gs [] h).0, h)
          (obj fs) r key h)

  pub kept-prefix :
      (fs gs : Fields) (key : List String) (h : Unit {0})
      → keyset_kept paths fs gs key h ≡ prefixed key (keyset_kept paths fs gs [] h)
  kept-prefix end gs key h = refl
  kept-prefix (field k v fs) gs key h =
      let rest = kept-prefix fs gs key h in
      elim (Option-cases (lookup k gs)) [
        | inl e ↦ rw e (rw rest)
        | inr (w, e) ↦
            let here = diff-prefix v w (key ++ k ∷ []) h in
            let base = diff-prefix v w (k ∷ []) h in
            rw e (rw (here, base, rest, map-append, map-prefix-prefix))
      ]
