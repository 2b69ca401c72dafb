-- ===== src/Delta/Calculator.antt =====
-- internal/delta/calculator.go: `diff` and what it calls, over any kind of keys. A loop over the keys
-- of both objects takes those of the left one first; in Go the order is arbitrary. The test
-- `commonality < 0.5` is written without the division, which is exact for fewer than 2^52 keys.
pub mod Prefix
pub mod Members
pub mod Sound
pub mod Aliasing
use go_kube_ops_view.Prelude.{
  ℕ, suc, ◌+◌, ◌*◌, String, Bool, true, false, none, some, List, [], ◌∷◌, ◌++◌, map, not, ◌&&◌,
  ◌||◌, ltb, nat_eq, if◌then◌else◌,
}
use go_kube_ops_view.Json.{
  Json, null, bool, num, str, arr, obj, Items, nil, cons, Fields, end, field, lookup, has,
  items_length, fields_length, deep_equal,
}
use go_kube_ops_view.Delta.{DiffStanza, Keys}

unfoldable pub is_terminal : Json → Bool
is_terminal (arr _) = false
is_terminal (obj _) = false
is_terminal _ = true

unfoldable pub is_object : Json → Bool
is_object (obj _) = true
is_object _ = false

unfoldable pub is_array : Json → Bool
is_array (arr _) = true
is_array _ = false

unfoldable pub structure_worth_investigating : Json → Json → Bool
unfolding is_object is_array
structure_worth_investigating l r =
    if is_object l && is_object r then true else is_array l && is_array r

-- `commonKeys` of `objectCommonality`, and the keys of the second object that the first lacks.
abbrev pub common_keys : Fields → Fields → ℕ
common_keys end gs = 0
common_keys (field k _ fs) gs = let rest = common_keys fs gs in if has k gs then suc rest else rest

abbrev pub new_keys : Fields → Fields → ℕ
new_keys fs end = 0
new_keys fs (field k _ gs) = let rest = new_keys fs gs in if has k fs then rest else suc rest

-- `objectCommonality(l, r) < 0.5`, and the same for arrays. Two empty ones have commonality 1.
unfoldable pub low_object_commonality : Fields → Fields → Bool
low_object_commonality fs gs = ltb (2 * common_keys fs gs) (fields_length fs + new_keys fs gs)

unfoldable pub low_array_commonality : Items → Items → Bool
low_array_commonality xs ys =
    let m = items_length xs in
    let n = items_length ys in
    let longest = if ltb m n then n else m in
    let shortest = if ltb n m then n else m in ltb (2 * shortest) longest

-- `calculateCommonality(left, right) < 0.5`
unfoldable pub low_commonality : Json → Json → Bool
unfolding low_object_commonality low_array_commonality
low_commonality (obj fs) (obj gs) = low_object_commonality fs gs
low_commonality (arr xs) (arr ys) = low_array_commonality xs ys
low_commonality _ _ = true

-- The loop of `arrayDiff`, over arrays of one length: whether every element is equal.
abbrev pub identical : Items → Items → Bool
identical nil ys = true
identical (cons x xs) nil = true
identical (cons x xs) (cons y ys) = if not (deep_equal x y) then false else identical xs ys

module _ (keys : Keys) where
  abbrev pub Stanzas : Type 0
  Stanzas = List (DiffStanza keys.Key)

  -- `d.diff` returns the stanzas, and leaves the arrays of the keys.
  abbrev pub Diff : Type 0
  Diff = Stanzas × keys.Heap

  abbrev pub replace : keys.Key → Json → keys.Heap → Diff
  replace key right h = (record { key = key; value = right } ∷ [], h)

  unfoldable pub array_diff : Json → Json → keys.Key → keys.Heap → Diff
  array_diff (arr xs) (arr ys) key h =
      if not (nat_eq (items_length xs) (items_length ys))
      then replace key (arr ys) h
      else if identical xs ys
      then ([], h)
      else replace key (arr ys) h
  array_diff _ right key h = replace key right h

  -- The body of `diff`; `keyset` is the call of `keysetDiff`, which recurs.
  unfoldable pub diff_with : Diff → Json → Json → keys.Key → keys.Heap → Diff
  unfolding is_terminal structure_worth_investigating low_commonality is_object is_array array_diff
  diff_with keyset left right key h =
      if deep_equal left right
      then ([], h)
      else if is_terminal left
          || (is_terminal right || not (structure_worth_investigating left right))
      then replace key right h
      else if low_commonality left right
      then replace key right h
      else if is_object left && is_object right
      then keyset
      else if is_array left && is_array right
      then array_diff left right key h
      else replace key right h

  -- The turns of the loop of `keysetDiff` for the keys that only the right object has.
  unfoldable pub keyset_added : Fields → Fields → keys.Key → keys.Heap → Diff
  keyset_added fs end key h = ([], h)
  keyset_added fs (field k w gs) key h =
      let skip = keyset_added fs gs key h in
      let (new_key, h') = keys.append key k h in
      let (rest, h'') = keyset_added fs gs key h' in
      if has k fs then skip else (record { key = new_key; value = w } ∷ rest, h'')

  abbrev pub fields_of : Json → Fields
  fields_of (obj fs) = fs
  fields_of _ = end

  unfoldable mutual
    unfolding diff_with keyset_added

    pub diff : Json → Json → keys.Key → keys.Heap → Diff
    diff (obj fs) right key h =
        let gs = fields_of right in
        let (kept, h') = keyset_kept fs gs key h in
        let (added, h'') = keyset_added fs gs key h' in
        diff_with (kept ++ added, h'') (obj fs) right key h
    diff null right key h = diff_with ([], h) null right key h
    diff (bool b) right key h = diff_with ([], h) (bool b) right key h
    diff (num n) right key h = diff_with ([], h) (num n) right key h
    diff (str s) right key h = diff_with ([], h) (str s) right key h
    diff (arr xs) right key h = diff_with ([], h) (arr xs) right key h

    -- The turns for the keys of the left object: a key that the right one lacks is set to null.
    pub keyset_kept : Fields → Fields → keys.Key → keys.Heap → Diff
    keyset_kept end gs key h = ([], h)
    keyset_kept (field k v fs) gs key h =
        let (new_key, h') = keys.append key k h in
        let (here, h'') : Diff = elim (lookup k gs) [
          | none ↦ (record { key = new_key; value = null } ∷ [], h')
          | some w ↦ diff v w new_key h'
        ] in
        let (rest, h3) = keyset_kept fs gs key h'' in (here ++ rest, h3)

  -- `d.diff(prevData, currentData, []interface{}{})`, its keys read when it has returned.
  unfoldable pub delta : keys.Heap → Json → Json → List (DiffStanza (List String))
  unfolding diff
  delta h left right =
      let (ds, h') = diff left right keys.root h in
      map (λ d. record { key = keys.read h' d.key; value = d.value }) ds
