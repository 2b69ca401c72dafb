-- ===== src/Dict/Values.antt =====
-- A number that each value of a Go map has, in the order of the map, where no two values share one.
use go_kube_ops_view.Prelude.{
  ℕ, String, ◌≡◌, refl, none, some, none≢some, List, [], ◌∷◌, ◌++◌, map, All, ◌==◌, eq_iff, true,
  false, Bool-cases, inl, inr, subst, sym, ap, arith, nat_eq, if◌then◌else◌,
}
use go_kube_ops_view.Dict.{
  Entries, Dict, value_at, assigned, erased, get, put, remove, value_at-assigned, value_at-erased,
}

-- A list less each occurrence of a number.
unfoldable pub without : ℕ → List ℕ → List ℕ
without n [] = []
without n (m ∷ ms) = let rest = without n ms in if nat_eq m n then rest else m ∷ rest

-- A number that a list does not have.
abbrev pub IsNew : ℕ → List ℕ → Type 0
IsNew n l = All (λ m. nat_eq m n ≡ false) l

without-IsNew : (n : ℕ) (l : List ℕ) → IsNew n l → without n l ≡ l
unfolding without
without-IsNew n [] h = refl
without-IsNew n (m ∷ l) h = rw (h.0, without, without-IsNew n l h.1)

module _ {ℓ} {V : Type ℓ} (f : V → ℕ) where
  abbrev numbers : Entries V → List ℕ
  numbers es = map (λ e. f e.1) es

  abbrev pub values : Dict V → List ℕ
  values m = numbers m.entries

  abbrev AreApart : Entries V → Type ℓ
  AreApart [] = Unit
  AreApart (e ∷ es) = (value_at es e.0 ≡ none) × IsNew (f e.1) (numbers es) × AreApart es

  -- Every key is there once, and every number.
  abbrev pub IsApart : Dict V → Type ℓ
  IsApart m = AreApart m.entries

  numbers-assigned_new :
      (es : Entries V) (a : String) (x : V)
      → value_at es a ≡ none
      → numbers (assigned es a x) ≡ numbers es ++ f x ∷ []
  unfolding value_at assigned
  numbers-assigned_new [] a x h = refl
  numbers-assigned_new (e ∷ es) a x h = elim (Bool-cases (e.0 == a)) [
    | inl q ↦ absurd (none≢some (sym (rw (q, value_at) at h)))
    | inr q ↦
        rw (q, assigned) (ap (◌∷◌ (f e.1)) (numbers-assigned_new es a x (rw (q, value_at) at h)))
  ]

  numbers-assigned_old :
      (es : Entries V) (a : String) (x : V) {y : V}
      → value_at es a ≡ some y
      → f x ≡ f y
      → numbers (assigned es a x) ≡ numbers es
  unfolding value_at assigned
  numbers-assigned_old [] a x h s = absurd (none≢some h)
  numbers-assigned_old (e ∷ es) a x {y} h s = elim (Bool-cases (e.0 == a)) [
    | inl q ↦
        let found : some e.1 ≡ some y = rw (q, value_at) at h in
        let same : e.1 ≡ y = cc found in
        rw (q, assigned) (ap (λ (n : ℕ). n ∷ numbers es) (cc (s, same)))
    | inr q ↦
        rw (q, assigned) (ap (◌∷◌ (f e.1)) (numbers-assigned_old es a x (rw (q, value_at) at h) s))
  ]

  IsNew-assigned :
      (n : ℕ) (es : Entries V) (a : String) (x : V)
      → IsNew n (numbers es)
      → nat_eq (f x) n ≡ false
      → IsNew n (numbers (assigned es a x))
  unfolding assigned
  IsNew-assigned n [] a x h p = (p, tt)
  IsNew-assigned n (e ∷ es) a x h p = elim (Bool-cases (e.0 == a)) [
    | inl q ↦ rw (q, assigned) (p, h.1)
    | inr q ↦ rw (q, assigned) (h.0, IsNew-assigned n es a x h.1 p)
  ]

  value_at-assigned_other :
      (es : Entries V) (a b : String) (x : V)
      → (a == b) ≡ false
      → value_at es b ≡ none
      → value_at (assigned es a x) b ≡ none
  value_at-assigned_other es a b x q h = rw (value_at-assigned es a b x, q) h

  AreApart-assigned_new :
      (es : Entries V) (a : String) (x : V)
      → AreApart es
      → value_at es a ≡ none
      → IsNew (f x) (numbers es)
      → AreApart (assigned es a x)
  unfolding value_at assigned
  AreApart-assigned_new [] a x d h n = (refl, tt, tt)
  AreApart-assigned_new (e ∷ es) a x d h n = elim (Bool-cases (e.0 == a)) [
    | inl q ↦ absurd (none≢some (sym (rw (q, value_at) at h)))
    | inr q ↦
        rw (q, assigned)
          (
            value_at-assigned_other es a e.0 x (ground (arith, eq_iff e.0 a, eq_iff a e.0)) d.0,
            IsNew-assigned (f e.1) es a x d.1 (let p = n.0 in ground arith),
            AreApart-assigned_new es a x d.2 (rw (q, value_at) at h) n.1,
          )
  ]

  -- A value that is there is not one of a number that no value has.
  IsNew-value_at :
      (n : ℕ) (es : Entries V) (a : String) {y : V}
      → IsNew n (numbers es)
      → value_at es a ≡ some y
      → nat_eq (f y) n ≡ false
  unfolding value_at
  IsNew-value_at n [] a h p = absurd (none≢some p)
  IsNew-value_at n (e ∷ es) a {y} h p = elim (Bool-cases (e.0 == a)) [
    | inl q ↦
        let found : some e.1 ≡ some y = rw (q, value_at) at p in
        let same : e.1 ≡ y = cc found in subst (λ v. nat_eq (f v) n ≡ false) same h.0
    | inr q ↦ IsNew-value_at n es a h.1 (rw (q, value_at) at p)
  ]

  AreApart-assigned_old :
      (es : Entries V) (a : String) (x : V) {y : V}
      → AreApart es
      → value_at es a ≡ some y
      → f x ≡ f y
      → AreApart (assigned es a x)
  unfolding value_at assigned
  AreApart-assigned_old [] a x d h s = (refl, tt, tt)
  AreApart-assigned_old (e ∷ es) a x {y} d h s = elim (Bool-cases (e.0 == a)) [
    | inl q ↦
        let found : some e.1 ≡ some y = rw (q, value_at) at h in
        let same : e.1 ≡ y = cc found in
        let key : e.0 ≡ a = ground (arith, eq_iff e.0 a) in
        let number : f e.1 ≡ f x = cc (s, same) in
        rw (q, assigned)
          (
            subst (λ k. value_at es k ≡ none) key d.0,
            subst (λ n. IsNew n (numbers es)) number d.1,
            d.2,
          )
    | inr q ↦
        let h' : value_at es a ≡ some y = rw (q, value_at) at h in
        let other = IsNew-value_at (f e.1) es a d.1 h' in
        rw (q, assigned)
          (
            value_at-assigned_other es a e.0 x (ground (arith, eq_iff e.0 a, eq_iff a e.0)) d.0,
            IsNew-assigned (f e.1) es a x d.1 (subst (λ n. nat_eq n (f e.1) ≡ false) (sym s) other),
            AreApart-assigned_old es a x d.2 h' s,
          )
  ]

  erased_absent : (es : Entries V) (a : String) → value_at es a ≡ none → erased es a ≡ es
  unfolding value_at erased
  erased_absent [] a h = refl
  erased_absent (e ∷ es) a h = elim (Bool-cases (e.0 == a)) [
    | inl q ↦ absurd (none≢some (sym (rw (q, value_at) at h)))
    | inr q ↦ rw (q, erased) (ap (◌∷◌ e) (erased_absent es a (rw (q, value_at) at h)))
  ]

  IsNew-erased :
      (n : ℕ) (es : Entries V) (a : String) → IsNew n (numbers es) → IsNew n (numbers (erased es a))
  unfolding erased
  IsNew-erased n [] a h = tt
  IsNew-erased n (e ∷ es) a h = elim (Bool-cases (e.0 == a)) [
    | inl q ↦ rw (q, erased) (IsNew-erased n es a h.1)
    | inr q ↦ rw (q, erased) (h.0, IsNew-erased n es a h.1)
  ]

  AreApart-erased : (es : Entries V) (a : String) → AreApart es → AreApart (erased es a)
  unfolding erased
  AreApart-erased [] a d = tt
  AreApart-erased (e ∷ es) a d = elim (Bool-cases (e.0 == a)) [
    | inl q ↦ rw (q, erased) (AreApart-erased es a d.2)
    | inr q ↦
        rw (q, erased)
          (
            rw (value_at-erased es a e.0, d.0) (ground arith),
            IsNew-erased (f e.1) es a d.1,
            AreApart-erased es a d.2,
          )
  ]

  numbers-erased :
      (es : Entries V) (a : String) {y : V}
      → AreApart es
      → value_at es a ≡ some y
      → numbers (erased es a) ≡ without (f y) (numbers es)
  unfolding value_at erased without
  numbers-erased [] a d h = refl
  numbers-erased (e ∷ es) a {y} d h = elim (Bool-cases (e.0 == a)) [
    | inl q ↦
        let found : some e.1 ≡ some y = rw (q, value_at) at h in
        let same : e.1 ≡ y = cc found in
        let key : e.0 ≡ a = ground (arith, eq_iff e.0 a) in
        let gone : value_at es a ≡ none = subst (λ k. value_at es k ≡ none) key d.0 in
        let number : f e.1 ≡ f y = cc same in
        let is_it : nat_eq (f e.1) (f y) ≡ true = ground (arith, number) in
        rw (q, erased, erased_absent es a gone, is_it, without)
          (sym (without-IsNew (f y) (numbers es) (subst (λ n. IsNew n (numbers es)) number d.1)))
    | inr q ↦
        let h' : value_at es a ≡ some y = rw (q, value_at) at h in
        let other = IsNew-value_at (f e.1) es a d.1 h' in
        let other' : nat_eq (f e.1) (f y) ≡ false = ground arith in
        rw (q, erased, other', without) (ap (◌∷◌ (f e.1)) (numbers-erased es a d.2 h'))
  ]

  -- The laws for clients: an assignment to a new key adds its number at the end, one that keeps the
  -- number changes nothing, and a deletion takes the number out.
  pub values-put_new :
      (m : Dict V) (a : String) (x : V)
      → IsApart m
      → get m a ≡ none
      → IsNew (f x) (values m)
      → (values (put m a x) ≡ values m ++ f x ∷ []) × IsApart (put m a x)
  unfolding get put
  values-put_new m a x d h n =
      (numbers-assigned_new m.entries a x h, AreApart-assigned_new m.entries a x d h n)

  pub values-put_old :
      (m : Dict V) (a : String) (x : V) {y : V}
      → IsApart m
      → get m a ≡ some y
      → f x ≡ f y
      → (values (put m a x) ≡ values m) × IsApart (put m a x)
  unfolding get put
  values-put_old m a x d h s =
      (numbers-assigned_old m.entries a x h s, AreApart-assigned_old m.entries a x d h s)

  pub values-remove :
      (m : Dict V) (a : String) {y : V}
      → IsApart m
      → get m a ≡ some y
      → (values (remove m a) ≡ without (f y) (values m)) × IsApart (remove m a)
  unfolding get remove
  values-remove m a d h = (numbers-erased m.entries a d h, AreApart-erased m.entries a d)
