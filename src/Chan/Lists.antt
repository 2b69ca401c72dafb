-- ===== src/Chan/Lists.antt =====
-- Loops over lists of channels: what they leave, and what keeps them from panicking.
use go_kube_ops_view.Prelude.{
  ℕ, ◌<◌, ◌≡◌, refl, true, false, some, List, [], ◌∷◌, ◌++◌, map, nat_eq, arith, All,
}
use go_kube_ops_view.Chan.{Chan, offer_all, close_all, IsLive, sent, sent-IsLive}

module _ {ℓ} {A : Type ℓ} where
  abbrev pub ids : List (Chan A) → List ℕ
  ids l = map (λ ch. ch.id) l

  pub offer_all-eq :
      (a : A) (l : List (Chan A)) → All IsLive l → offer_all a l ≡ some (map (sent a) l)
  unfolding offer_all
  offer_all-eq a [] h = refl
  offer_all-eq a (ch ∷ l) h = rw (h.0.is_open, offer_all) (rw (offer_all-eq a l h.1))

  pub close_all-eq :
      (l : List (Chan A))
      → All IsLive l
      → close_all l ≡ some (map (λ (ch : Chan A). record ch { closed = true }) l)
  unfolding close_all
  close_all-eq [] h = refl
  close_all-eq (ch ∷ l) h = rw (h.0.is_open, close_all) (rw (close_all-eq l h.1))

  pub sent-All : (a : A) (l : List (Chan A)) → All IsLive l → All IsLive (map (sent a) l)
  sent-All a [] h = h
  sent-All a (ch ∷ l) h = (sent-IsLive a h.0, sent-All a l h.1)

  sent-id : (a : A) (ch : Chan A) → (sent a ch).id ≡ ch.id
  sent-id a ch = ground arith

  pub ids-sent : (a : A) (l : List (Chan A)) → ids (map (sent a) l) ≡ ids l
  ids-sent a [] = refl
  ids-sent a (ch ∷ l) = cc (sent-id a ch, ids-sent a l)

-- No number twice.
abbrev pub Distinct : List ℕ → Type 0
Distinct [] = Unit
Distinct (i ∷ l) = All (λ j. (nat_eq j i) ≡ false) l × Distinct l

pub All-snoc {ℓ κ} :
    {A : Type ℓ} (P : A → Type κ) (xs : List A) (a : A) → All P xs → P a → All P (xs ++ a ∷ [])
All-snoc P [] a h p = (p, tt)
All-snoc P (x ∷ xs) a h p = (h.0, All-snoc P xs a h.1 p)

pub All-imp {ℓ κ} :
    {A : Type ℓ} {P Q : A → Type κ} → ((a : A) → P a → Q a) → (xs : List A) → All P xs → All Q xs
All-imp f [] h = h
All-imp f (x ∷ xs) h = (f x h.0, All-imp f xs h.1)

-- A number above all others may be added.
pub Distinct-snoc : (l : List ℕ) (n : ℕ) → All (λ i. i < n) l → Distinct l → Distinct (l ++ n ∷ [])
Distinct-snoc [] n h d = (tt, tt)
Distinct-snoc (i ∷ l) n h d =
    (All-snoc (λ j. (nat_eq j i) ≡ false) l n d.0 (ground arith), Distinct-snoc l n h.1 d.1)
