-- ===== src/Events/Sse/Filter/Listed.antt =====
-- `parseClusterFilter` of internal/events/sse.go reads what a client that lists clusters writes.
use Prim.Native.Char.{code}
use go_kube_ops_view.Prelude.{
  String, ◌≡◌, refl, sym, ap, ◌∙◌, Bool, true, false, some, List, [], ◌∷◌, All, ◌==◌, nat_eq,
  if◌then◌else◌, eq_iff, Bool-cases, inl, inr,
}
use go_kube_ops_view.Config.Texts.{trim_space, split_at, split_comma, prepend}
use go_kube_ops_view.Events.Sse.Filter.{trimmed, parse_cluster_filter}

-- A text, a comma and another text.
unfoldable pub followed : String → String → String
followed String.[] t = String.◌∷◌ "," t
followed (String.◌∷◌ c s) t = String.◌∷◌ c (followed s t)

-- IDs with commas between them.
unfoldable pub comma_list : String → List String → String
comma_list s [] = s
comma_list s (t ∷ l) = followed s (comma_list t l)

unfoldable pub has_comma : String → Bool
has_comma String.[] = false
has_comma (String.◌∷◌ c s) = let rest = has_comma s in if nat_eq (code c) b',' then true else rest

abbrev is_something : String → Bool
is_something String.[] = false
is_something (String.◌∷◌ c s) = true

-- What an ID must be: not empty, without a comma, and without spaces around it.
pub record IsListable (s : String) : Type 0 where
  pub full : (s == "") ≡ false
  pub no_comma : has_comma s ≡ false
  pub tight : trim_space s ≡ s

split_followed :
    (s t : String) → has_comma s ≡ false → split_at b',' (followed s t) ≡ s ∷ split_at b',' t
unfolding split_at followed has_comma
split_followed String.[] t h = refl
split_followed (String.◌∷◌ c s) t h = elim (Bool-cases (nat_eq (code c) b',')) [
  | inl q ↦ let bad : true ≡ false = rw (q, has_comma) at h in cc
  | inr q ↦ rw (q, split_at) (ap (prepend c) (split_followed s t (rw (q, has_comma) at h)))
]

split_last : (s : String) → has_comma s ≡ false → split_at b',' s ≡ s ∷ []
unfolding split_at has_comma
split_last String.[] h = refl
split_last (String.◌∷◌ c s) h = elim (Bool-cases (nat_eq (code c) b',')) [
  | inl q ↦ let bad : true ≡ false = rw (q, has_comma) at h in cc
  | inr q ↦ rw (q, split_at) (ap (prepend c) (split_last s (rw (q, has_comma) at h)))
]

split_list :
    (s : String) (l : List String)
    → IsListable s
    → All IsListable l
    → split_comma (comma_list s l) ≡ s ∷ l
unfolding split_comma comma_list
split_list s [] h k = split_last s h.no_comma
split_list s (t ∷ l) h k =
    split_followed s (comma_list t l) h.no_comma
    ∙ ap (λ (r : List String). s ∷ r) (split_list t l k.0 k.1)

trimmed-IsListable : (l : List String) → All IsListable l → trimmed l ≡ l
unfolding trimmed
trimmed-IsListable [] h = refl
trimmed-IsListable (s ∷ l) h =
    rw (h.0.tight, h.0.full, trimmed) (ap (λ (r : List String). s ∷ r) (trimmed-IsListable l h.1))

nonempty : (s : String) → is_something s ≡ true → (s == "") ≡ false
nonempty s h = elim (Bool-cases (s == "")) [
  | inr q ↦ q
  | inl q ↦
      let bad : is_something s ≡ false = ap is_something ((eq_iff s "").0 q) in
      let worse : true ≡ false = sym h ∙ bad in cc
]

followed_full : (s t : String) → is_something (followed s t) ≡ true
unfolding followed
followed_full String.[] t = refl
followed_full (String.◌∷◌ c s) t = refl

list_full : (s : String) (l : List String) → IsListable s → (comma_list s l == "") ≡ false
unfolding comma_list
list_full s [] h = h.full
list_full s (t ∷ l) h = nonempty (followed s (comma_list t l)) (followed_full s (comma_list t l))

-- The filter of a stream is read as it is written: IDs that are not empty, have no comma and no
-- spaces around them, listed with commas between them in the parameter `clusters`, are read as
-- exactly these IDs in their order, whatever the parameter `cluster_ids` says.
pub parse_cluster_filter-comma_list :
    (s : String) (l : List String) (cluster_ids : String)
    → IsListable s
    → All IsListable l
    → parse_cluster_filter (comma_list s l) cluster_ids ≡ some (s ∷ l)
unfolding parse_cluster_filter
parse_cluster_filter-comma_list s l cluster_ids h k =
    rw (list_full s l h, list_full s l h)
      (ap some (ap trimmed (split_list s l h k) ∙ trimmed-IsListable (s ∷ l) (h, k)))
