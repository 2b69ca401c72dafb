-- ===== src/Store/Redis/Keys.antt =====
-- The keys of internal/store/redis.go do not collide: each is a fixed prefix before an ID.
use Prim.Native.String.{◌++◌ as text_append, len, slice}
use text.Mathlib.TextLemmas.{append_cancel_left, append_assoc}
use text.Mathlib.TextPositions.{slice-append_left}
use go_kube_ops_view.Prelude.{
  String, ◌≡◌, refl, sym, ap, ◌∙◌, true, false, Bool-cases, inl, inr, eq_iff, ◌==◌, eq_refl,
}
use go_kube_ops_view.Store.Redis.{cluster_data_key, cluster_status_key, token_key}

-- One prefix: the rest decides.
prefixed_eq : (p a b : String) → (text_append p a == text_append p b) ≡ (a == b)
prefixed_eq p a b = elim (Bool-cases (a == b)) [
  | inl h ↦ rw (h, (eq_iff a b).0 h) (eq_refl (text_append p b))
  | inr h ↦ elim (Bool-cases (text_append p a == text_append p b)) [
    | inl e ↦
        let same : a ≡ b = append_cancel_left p a b ((eq_iff _ _).0 e) in
        let t : (a == b) ≡ true = (eq_iff a b).1 same in cc
    | inr e ↦ e ∙ sym h
  ]
]

-- Prefixes that begin differently never meet.
prefixed_ne :
    (p s q t a b : String)
    → len p ≡ len q
    → (p == q) ≡ false
    → (text_append (text_append p s) a == text_append (text_append q t) b) ≡ false
prefixed_ne p s q t a b l n =
    elim (Bool-cases (text_append (text_append p s) a == text_append (text_append q t) b)) [
      | inr e ↦ e
      | inl e ↦
          let same : text_append p (text_append s a) ≡ text_append q (text_append t b) =
            sym (append_assoc p s a) ∙ (eq_iff _ _).0 e ∙ append_assoc q t b in
          let heads : p ≡ q =
            sym (slice-append_left p (text_append s a))
            ∙ ap (λ (x : String). slice x 0 (len p)) same
            ∙ ap (slice (text_append q (text_append t b)) 0) l
            ∙ slice-append_left q (text_append t b) in
          let h : (p == q) ≡ true = (eq_iff p q).1 heads in cc
    ]

pub cluster_data_key_eq : (a b : String) → (cluster_data_key a == cluster_data_key b) ≡ (a == b)
cluster_data_key_eq a b = prefixed_eq "kube-ops-view:cluster:data:" a b

pub cluster_status_key_eq :
    (a b : String) → (cluster_status_key a == cluster_status_key b) ≡ (a == b)
cluster_status_key_eq a b = prefixed_eq "kube-ops-view:cluster:status:" a b

pub token_key_eq : (a b : String) → (token_key a == token_key b) ≡ (a == b)
token_key_eq a b = prefixed_eq "kube-ops-view:token:" a b

pub data-ne-status : (a b : String) → (cluster_data_key a == cluster_status_key b) ≡ false
data-ne-status a b =
    prefixed_ne "kube-ops-view:cluster:d" "ata:" "kube-ops-view:cluster:s" "tatus:" a b refl refl

pub status-ne-data : (a b : String) → (cluster_status_key a == cluster_data_key b) ≡ false
status-ne-data a b =
    prefixed_ne "kube-ops-view:cluster:s" "tatus:" "kube-ops-view:cluster:d" "ata:" a b refl refl

pub token-ne-data : (a b : String) → (token_key a == cluster_data_key b) ≡ false
token-ne-data a b =
    prefixed_ne "kube-ops-view:t" "oken:" "kube-ops-view:c" "luster:data:" a b refl refl

pub token-ne-status : (a b : String) → (token_key a == cluster_status_key b) ≡ false
token-ne-status a b =
    prefixed_ne "kube-ops-view:t" "oken:" "kube-ops-view:c" "luster:status:" a b refl refl
