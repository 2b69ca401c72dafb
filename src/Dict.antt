-- ===== src/Dict.antt =====
-- Go's maps with string keys. A loop over a map takes the entries in the order of the list, which
-- stands for any order, since nothing is assumed of it; a loop that deletes is `delete_if`.
pub mod Each
pub mod Values
use go_kube_ops_view.Prelude.{
  ℕ, String, ◌≡◌, refl, Bool, Option, none, some, List, [], ◌∷◌, map, arith, eq_iff, ◌==◌,
  if◌then◌else◌, length, true, false, any, Bool-cases, Option-cases, none≢some, subst, inl, inr,
}

abbrev pub Entries {ℓ} : Type ℓ → Type ℓ
Entries V = List (String × V)

module _ {ℓ} {V : Type ℓ} where
  -- The first entry with a key counts.
  unfoldable value_at : Entries V → String → Option V
  value_at [] a = none
  value_at (e ∷ es) a = if e.0 == a then some e.1 else value_at es a

  unfoldable erased : Entries V → String → Entries V
  erased [] a = []
  erased (e ∷ es) a = let tail = erased es a in if e.0 == a then tail else e ∷ tail

  -- An assignment keeps the place of a key that is there.
  unfoldable assigned : Entries V → String → V → Entries V
  assigned [] a x = (a, x) ∷ []
  assigned (e ∷ es) a x = let tail = assigned es a x in if e.0 == a then (a, x) ∷ es else e ∷ tail

  unfoldable swept : (String → V → Bool) → Entries V → Entries V
  swept p [] = []
  swept p (e ∷ es) = let tail = swept p es in if p e.0 e.1 then erased tail e.0 else e ∷ tail

  -- A loop that changes each value or panics.
  unfoldable changed : (V → Option V) → Entries V → Option (Entries V)
  changed f [] = some []
  changed f (e ∷ es) =
      let tail = changed f es in
      elim (f e.1) [
        | none ↦ none
        | some x ↦ elim tail [ none ↦ none | some es' ↦ some ((e.0, x) ∷ es') ]
      ]

pub record Dict {ℓ} (V : Type ℓ) : Type ℓ where
  pub entries : Entries V

module _ {ℓ} {V : Type ℓ} where
  -- make(map[string]V)
  abbrev pub empty : Dict V
  empty = record { entries = [] }

  -- v, exists := m[k]
  unfoldable pub get : Dict V → String → Option V
  unfolding value_at
  get m a = value_at m.entries a

  -- m[k] = v
  unfoldable pub put : Dict V → String → V → Dict V
  unfolding assigned
  put m a x = record { entries = assigned m.entries a x }

  -- delete(m, k)
  unfoldable pub remove : Dict V → String → Dict V
  unfolding erased
  remove m a = record { entries = erased m.entries a }

  -- for k, v := range m { if p(k, v) { delete(m, k) } }
  unfoldable pub delete_if : (String → V → Bool) → Dict V → Dict V
  unfolding swept erased
  delete_if p m = record { entries = swept p m.entries }

  -- for _, v := range m { … }, where the body changes `v` in place or panics
  unfoldable pub change_each : (V → Option V) → Dict V → Option (Dict V)
  unfolding changed
  change_each f m = elim (changed f m.entries) [
    | none ↦ none
    | some es ↦ some (record { entries = es })
  ]

  -- len(m)
  abbrev pub size : Dict V → ℕ
  size d = length d.entries

  -- for k := range m { ids = append(ids, k) }
  abbrev pub keys : Dict V → List String
  keys d = map (λ e. e.0) d.entries

  value_at-erased :
      (es : Entries V) (a b : String)
      → value_at (erased es a) b ≡ (if a == b then none else value_at es b)
  unfolding value_at erased
  value_at-erased [] a b = ground arith
  value_at-erased (e ∷ es) a b =
      ground (arith, eq_iff e.0 a, eq_iff e.0 b, eq_iff a b, value_at-erased es a b)

  value_at-assigned :
      (es : Entries V) (a b : String) (x : V)
      → value_at (assigned es a x) b ≡ (if a == b then some x else value_at es b)
  unfolding value_at assigned
  value_at-assigned [] a b x = refl
  value_at-assigned (e ∷ es) a b x =
      ground (arith, eq_iff e.0 a, eq_iff e.0 b, eq_iff a b, value_at-assigned es a b x)

  -- What a loop that deletes leaves at a key.
  abbrev pub kept : (String → V → Bool) → String → Option V → Option V
  kept p a none = none
  kept p a (some x) = if p a x then none else some x

  value_at-swept :
      (p : String → V → Bool) (es : Entries V) (b : String)
      → value_at (swept p es) b ≡ kept p b (value_at es b)
  unfolding value_at swept
  value_at-swept p [] b = refl
  value_at-swept p (e ∷ es) b =
      ground (arith, eq_iff e.0 b, value_at-swept p es b, value_at-erased (swept p es) e.0 b)

  -- The laws, by which clients reason: what is read at a key after each operation.
  pub get-put :
      (m : Dict V) (a b : String) (x : V) → get (put m a x) b ≡ (if a == b then some x else get m b)
  unfolding get put
  get-put m a b x = value_at-assigned m.entries a b x

  pub get-delete_if :
      (p : String → V → Bool) (m : Dict V) (b : String) → get (delete_if p m) b ≡ kept p b (get m b)
  unfolding get delete_if
  get-delete_if p m b = value_at-swept p m.entries b

  pub get-remove :
      (m : Dict V) (a b : String) → get (remove m a) b ≡ (if a == b then none else get m b)
  unfolding get remove
  get-remove m a b = value_at-erased m.entries a b

  value_at-keys :
      (es : Entries V) (a : String) {x : V}
      → value_at es a ≡ some x
      → any (λ k. k == a) (map (λ e. e.0) es) ≡ true
  unfolding value_at
  value_at-keys [] a h = cc
  value_at-keys (e ∷ es) a h = elim (Bool-cases (e.0 == a)) [
    | inl q ↦ ground (arith, q)
    | inr q ↦ ground (arith, q, value_at-keys es a (rw (q, value_at) at h))
  ]

  abbrev pub then_some : (V → Option V) → Option V → Option V
  then_some f none = none
  then_some f (some x) = f x

  value_at-changed :
      (f : V → Option V) (es : Entries V) (b : String) {es' : Entries V}
      → changed f es ≡ some es'
      → value_at es' b ≡ then_some f (value_at es b)
  unfolding value_at changed
  value_at-changed f [] b {es'} h =
      let same : [] ≡ es' = cc h in subst (λ (l : Entries V). value_at l b ≡ none) same refl
  value_at-changed f (e ∷ es) b {es'} h = elim (Option-cases (f e.1)) [
    | inl q ↦ absurd (none≢some (rw (q, changed) at h))
    | inr (x, q) ↦ elim (Option-cases (changed f es)) [
      | inl t ↦ absurd (none≢some (rw (t, changed) at (rw (q, changed) at h)))
      | inr (tail, t) ↦
          let r = value_at-changed f es b t in
          let same : some ((e.0, x) ∷ tail) ≡ some es' = rw t at (rw (q, changed) at h) in
          let same' : (e.0, x) ∷ tail ≡ es' = cc same in
          subst (λ (l : Entries V). value_at l b ≡ then_some f (value_at (e ∷ es) b)) same'
            (ground (arith, q, r))
    ]
  ]

  -- After such a loop that did not panic, every key has the changed value.
  pub get-change_each :
      (f : V → Option V) (m : Dict V) (b : String) {m' : Dict V}
      → change_each f m ≡ some m'
      → get m' b ≡ then_some f (get m b)
  unfolding get change_each
  get-change_each f m b {m'} h = elim (Option-cases (changed f m.entries)) [
    | inl q ↦ absurd (none≢some (rw (q, change_each) at h))
    | inr (es, q) ↦
        let same : some (as_dict es) ≡ some m' = rw (q, change_each) at h in
        let same' : as_dict es ≡ m' = cc same in
        subst (λ (d : Dict V). value_at d.entries b ≡ then_some f (value_at m.entries b)) same'
          (value_at-changed f m.entries b q)
  ]
    where
      as_dict : Entries V → Dict V
      as_dict es = record { entries = es }

  value_at-keys-none :
      (es : Entries V) (a : String)
      → value_at es a ≡ none
      → any (λ k. k == a) (map (λ e. e.0) es) ≡ false
  unfolding value_at
  value_at-keys-none [] a h = refl
  value_at-keys-none (e ∷ es) a h = ground (arith, h, value_at-keys-none es a)

  -- A key without a value is not met by a loop over the map.
  pub get-keys-none :
      (m : Dict V) (a : String) → get m a ≡ none → any (λ k. k == a) (keys m) ≡ false
  unfolding get
  get-keys-none m a h = value_at-keys-none m.entries a h

  -- A key with a value is met by a loop over the map.
  pub get-keys :
      (m : Dict V) (a : String) {x : V} → get m a ≡ some x → any (λ k. k == a) (keys m) ≡ true
  unfolding get
  get-keys m a h = value_at-keys m.entries a h

  pub get-empty : (a : String) → get empty a ≡ none
  unfolding get
  get-empty a = refl
