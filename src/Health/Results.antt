-- ===== src/Health/Results.antt =====
-- The results of `CheckAll` of internal/health/health.go.
use go_kube_ops_view.Prelude.{
  String, ◌≡◌, refl, subst, sym, ◌-◌, map, ◌∙◌, Bool, true, false, ◌||◌, Option, none, some, List,
  [], ◌∷◌, arith, any, ◌==◌, eq_iff, ◌⊎◌, inl, inr, Bool-cases, Option-cases, none≢some,
}
use go_kube_ops_view.Dict
use go_kube_ops_view.Dict.{Dict, get-put, get-keys, get-keys-none}
use go_kube_ops_view.Models.{Time}
use go_kube_ops_view.Health.{Check, CheckFunc, timed, check_each, check_all}

abbrev pub is_present {ℓ} : {A : Type ℓ} → Option A → Bool
is_present none = false
is_present (some x) = true

module _ (W : Type 0) (clock : W → Time × W) where
  -- What a function returned when it ran in a world, with the time from the reading of the clock
  -- before it to the one after it, and the reading that followed.
  pub record IsRun (f : CheckFunc W clock) (w : W) (r : Check) : Type 0 where
    pub name : r.name ≡ (f (clock w).1).0.name
    pub status : r.status ≡ (f (clock w).1).0.status
    pub message : r.message ≡ (f (clock w).1).0.message
    pub details : r.details ≡ (f (clock w).1).0.details
    pub duration : r.duration ≡ (clock (f (clock w).1).1).0 - (clock w).0
    pub last_checked : r.last_checked ≡ (clock (clock (f (clock w).1).1).1).0

  -- The world after such a run.
  abbrev pub left_by : CheckFunc W clock → W → W
  left_by f w = (clock (clock (f (clock w).1).1).1).1

  -- The check is what one of the registered functions of that name returned, where the functions
  -- run one after another from a world on.
  abbrev pub HasRun : List (String × CheckFunc W clock) → W → String → Check → Type 0
  HasRun [] w id r = ⊥
  HasRun (e ∷ es) w id r = ((e.0 ≡ id) × IsRun e.1 w r) ⊎ HasRun es (left_by e.1 w) id r

  timed-IsRun : (f : CheckFunc W clock) (w : W) → IsRun f w (timed W clock f w).0
  unfolding timed
  timed-IsRun f w = record {
    name = refl;
    status = refl;
    message = refl;
    details = refl;
    duration = refl;
    last_checked = refl;
  }

  check_each-present :
      (es : List (String × CheckFunc W clock)) (results : Dict Check) (w : W) (id : String)
      → is_present (Dict.get (check_each W clock es results w).0 id)
        ≡ (is_present (Dict.get results id) || any (λ k. k == id) (map (λ e. e.0) es))
  unfolding check_each
  check_each-present [] results w id = ground arith
  check_each-present ((name, f) ∷ es) results w id =
      let done = timed W clock f w in
      let rest = check_each-present es (Dict.put results name done.0) done.1 id in
      ground (arith, rest, get-put results name id done.0)

  check_each-HasRun :
      (es : List (String × CheckFunc W clock)) (results : Dict Check) (w : W) (id : String)
      {r : Check}
      → Dict.get (check_each W clock es results w).0 id ≡ some r
      → (Dict.get results id ≡ some r) ⊎ HasRun es w id r
  unfolding check_each timed
  check_each-HasRun [] results w id h = inl h
  check_each-HasRun ((name, f) ∷ es) results w id {r} h =
      let done = timed W clock f w in
      elim (check_each-HasRun es (Dict.put results name done.0) done.1 id h) [
        | inr q ↦ inr (inr q)
        | inl q ↦ elim (Bool-cases (name == id)) [
          | inl t ↦
              let found : some done.0 ≡ some r =
                rw t at (sym (get-put results name id done.0) ∙ q) in
              let same : done.0 ≡ r = cc found in
              inr (inl ((eq_iff name id).0 t, subst (IsRun f w) same (timed-IsRun f w)))
          | inr t ↦ inl (rw t at (sym (get-put results name id done.0) ∙ q))
        ]
      ]

  present-keys :
      (registered : Dict (CheckFunc W clock)) (id : String)
      → any (λ k. k == id) (Dict.keys registered) ≡ is_present (Dict.get registered id)
  present-keys registered id = elim (Option-cases (Dict.get registered id)) [
    | inl q ↦ rw q (get-keys-none registered id q)
    | inr (f, q) ↦ rw q (get-keys registered id q)
  ]

  -- CheckAll has a result under exactly the names that have a registered check. The checks run one
  -- after another, and each result is what a registered check of that name returned in its run, with
  -- the time that this run took and the reading of the clock that followed it.
  pub check_all_lem :
      (registered : Dict (CheckFunc W clock)) (w : W) (id : String)
      → let results = (check_all W clock registered w).0 in
        (is_present (Dict.get results id) ≡ is_present (Dict.get registered id))
        × ((r : Check) → Dict.get results id ≡ some r → HasRun registered.entries w id r)
  unfolding check_all Dict.get
  check_all_lem registered w id = (
    check_each-present registered.entries Dict.empty w id ∙ present-keys registered id,
    λ r h. elim (check_each-HasRun registered.entries Dict.empty w id h) [
      | inl q ↦ absurd (none≢some q)
      | inr q ↦ q
    ],
  )
