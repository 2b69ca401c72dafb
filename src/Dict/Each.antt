-- ===== src/Dict/Each.antt =====
-- What holds of every value of a Go map, also of those that a loop over the map meets.
use go_kube_ops_view.Prelude.{
  String, ◌≡◌, refl, Option, some, none≢some, [], ◌∷◌, All, ◌==◌, Bool-cases, inl, inr, subst,
}
use go_kube_ops_view.Dict.{Entries, Dict, value_at, assigned, changed, get, put, change_each}

module _ {ℓ κ} {V : Type ℓ} (P : V → Type κ) where
  abbrev EachEntry : Entries V → Type κ
  EachEntry es = All (λ e. P e.1) es

  abbrev pub Each : Dict V → Type κ
  Each m = EachEntry m.entries

  assigned-EachEntry :
      (es : Entries V) (a : String) (x : V) → EachEntry es → P x → EachEntry (assigned es a x)
  unfolding assigned
  assigned-EachEntry [] a x h p = (p, tt)
  assigned-EachEntry (e ∷ es) a x h p = elim (Bool-cases (e.0 == a)) [
    | inl q ↦ rw (q, assigned) (p, h.1)
    | inr q ↦ rw (q, assigned) (h.0, assigned-EachEntry es a x h.1 p)
  ]

  pub put-Each : (m : Dict V) (a : String) (x : V) → Each m → P x → Each (put m a x)
  unfolding put
  put-Each m a x h p = assigned-EachEntry m.entries a x h p

  value_at-EachEntry :
      (es : Entries V) (a : String) (x : V) → EachEntry es → value_at es a ≡ some x → P x
  unfolding value_at
  value_at-EachEntry [] a x h q = absurd (none≢some q)
  value_at-EachEntry (e ∷ es) a x h q = elim (Bool-cases (e.0 == a)) [
    | inl b ↦
        let found : some e.1 ≡ some x = rw (b, value_at) at q in
        let same : e.1 ≡ x = cc found in subst P same h.0
    | inr b ↦ value_at-EachEntry es a x h.1 (rw (b, value_at) at q)
  ]

  pub get-Each : (m : Dict V) (a : String) (x : V) → Each m → get m a ≡ some x → P x
  unfolding get
  get-Each m a x h q = value_at-EachEntry m.entries a x h q

  -- A loop whose body keeps the property does not panic, and keeps it of the map.
  module _ (f : V → Option V) (total : (x : V) → P x → (y : V) × (f x ≡ some y) × P y) where
    changed-EachEntry :
        (es : Entries V)
        → EachEntry es
        → (es' : Entries V) × (changed f es ≡ some es') × EachEntry es'
    unfolding changed
    changed-EachEntry [] h = ([], refl, tt)
    changed-EachEntry (e ∷ es) h =
        let (y, q, p) = total e.1 h.0 in
        let (es', r, ps) = changed-EachEntry es h.1 in
        ((e.0, y) ∷ es', rw (q, changed) (rw r refl), (p, ps))

    pub change_each-Each :
        (m : Dict V) → Each m → (m' : Dict V) × (change_each f m ≡ some m') × Each m'
    unfolding change_each
    change_each-Each m h =
        let (es, q, p) = changed-EachEntry m.entries h in
        (record { entries = es }, rw (q, change_each) refl, p)
