-- ===== src/Store/Memory/Tokens/Redeemable.antt =====
-- A screen token of internal/store/memory.go can be redeemed until it expires.
use go_kube_ops_view.Prelude.{
  ℕ, ◌+◌, ◌≤◌, String, ◌≡◌, refl, true, false, Option, none, some, List, [], ◌∷◌, arith, ◌==◌,
  if◌then◌else◌, ok, err, ltb, All, Option-cases, inl, inr, eq_refl,
}
use go_kube_ops_view.Dict
use go_kube_ops_view.Dict.{get-put, get-remove, get-delete_if}
use go_kube_ops_view.Models.{Time}
use go_kube_ops_view.Store.{ScreenToken, token_expired}
use go_kube_ops_view.Store.Memory.{
  MemoryStore, hex, is_expired, create_screen_token, redeem_screen_token, validate_screen_token,
  delete_screen_token, get_token_count,
}
use go_kube_ops_view.Store.Memory.Runs.{Op, create, redeem, revoke, count, step, run}
use go_kube_ops_view.Store.Memory.Tokens.Frame.{
  tokens-set_cluster_data, tokens-set_cluster_status, tokens-delete_cluster, tokens-publish_event,
  tokens-subscribe, tokens-unsubscribe, tokens-close,
}

-- The call does not issue, redeem or delete the token, and cleans up only before the deadline.
abbrev pub IsOther : String → Time → Op → Type 0
IsOther token deadline (create (some bytes) now _ _) =
    ((hex bytes == token) ≡ false) × (now ≤ deadline)
IsOther token deadline (redeem t _ _ _) = (t == token) ≡ false
IsOther token deadline (revoke t) = (t == token) ≡ false
IsOther token deadline (count now) = now ≤ deadline
IsOther token deadline _ = Unit

module _ (token : String) (s : ScreenToken) where
  abbrev Stored : MemoryStore → Type 0
  Stored m = Dict.get m.tokens token ≡ some s

  cleaned-Stored :
      (now : Time) (m : MemoryStore)
      → now ≤ s.expires_at
      → Stored m
      → Dict.get (Dict.delete_if (is_expired now) m.tokens) token ≡ some s
  cleaned-Stored now m le h = rw (get-delete_if, h) (ground arith)

  create-Stored :
      (random : Option (List ℕ)) (now created expires : Time) (m : MemoryStore)
      → IsOther token s.expires_at (create random now created expires)
      → Stored m
      → Stored (create_screen_token random now created expires m).1
  unfolding create_screen_token
  create-Stored none now created expires m n h = h
  create-Stored (some bytes) now created expires m n h =
      rw get-put (rw n.0 (cleaned-Stored now m n.1 h))

  redeem-Stored :
      (t addr : String) (now used : Time) (m : MemoryStore)
      → (t == token) ≡ false
      → Stored m
      → Stored (redeem_screen_token t addr now used m).1
  unfolding redeem_screen_token
  redeem-Stored t addr now used m n h = elim (Option-cases (Dict.get m.tokens t)) [
    | inl e ↦ rw (e, redeem_screen_token) h
    | inr (x, e) ↦
        rw (e, redeem_screen_token)
          (ground (
            arith,
            get-remove m.tokens t token,
            get-put m.tokens t token (record x { used_at = some used; remote_addr = addr }),
          ))
  ]

  step-Stored :
      (o : Op) → IsOther token s.expires_at o → (m : MemoryStore) → Stored m → Stored (step o m)
  unfolding step delete_screen_token get_token_count
  step-Stored (create random now created expires) n m h =
      create-Stored random now created expires m n h
  step-Stored (redeem t addr now used) n m h = redeem-Stored t addr now used m n h
  step-Stored (revoke t) n m h = rw (get-remove, n) h
  step-Stored (count now) n m h = cleaned-Stored now m n h
  step-Stored (Op.set_data id cd) n m h = rw tokens-set_cluster_data h
  step-Stored (Op.set_status id st) n m h = rw tokens-set_cluster_status h
  step-Stored (Op.delete id) n m h = rw tokens-delete_cluster h
  step-Stored (Op.publish kind payload now) n m h = rw tokens-publish_event h
  step-Stored Op.join n m h = rw tokens-subscribe h
  step-Stored (Op.leave id) n m h = rw tokens-unsubscribe h
  step-Stored Op.shut n m h = rw tokens-close h
  step-Stored (Op.receive id) n m h = h

  run-Stored :
      (ops : List Op)
      → All (IsOther token s.expires_at) ops
      → (m : MemoryStore) → Stored m
      → Stored (run ops m)
  unfolding run
  run-Stored [] n m h = h
  run-Stored (o ∷ ops) n m h = run-Stored ops n.1 (step o m) (step-Stored o n.0 m h)

  unused_of_Stored :
      (addr : String) (now used : Time) (m : MemoryStore)
      → s.used_at ≡ none
      → Stored m
      → ((redeem_screen_token token addr now used m).0
          ≡ (if ltb s.expires_at now then err token_expired else ok tt))
        × (validate_screen_token token now m ≡ (if ltb s.expires_at now then false else true))
  unfolding redeem_screen_token validate_screen_token
  unused_of_Stored addr now used m u h =
      (rw (h, redeem_screen_token) (ground arith), rw (h, validate_screen_token) refl)

-- A token that was issued stays redeemable until it expires: after any calls that do not issue,
-- redeem or delete it, and whose clean-ups read a clock that has not passed the expiry, a
-- redemption succeeds exactly until the TTL after the issue, and fails as expired from then on;
-- `ValidateScreenToken` says the same.
pub issued_redeemable :
    (m : MemoryStore) (bytes : List ℕ) (now created expires now' used' : Time) (addr : String)
    (ops : List Op)
    → All (IsOther (hex bytes) (expires + m.token_ttl)) ops
    → let m' = run ops (create_screen_token (some bytes) now created expires m).1 in
      let late = ltb (expires + m.token_ttl) now' in
      ((redeem_screen_token (hex bytes) addr now' used' m').0
        ≡ (if late then err token_expired else ok tt))
      × (validate_screen_token (hex bytes) now' m' ≡ (if late then false else true))
unfolding create_screen_token
issued_redeemable m bytes now created expires now' used' addr ops n =
    let t : ScreenToken = record {
      token = hex bytes;
      created_at = created;
      expires_at = expires + m.token_ttl;
      used_at = none;
      remote_addr = "";
    } in
    let m' = (create_screen_token (some bytes) now created expires m).1 in
    unused_of_Stored (hex bytes) t addr now' used' (run ops m') refl
      (run-Stored (hex bytes) t ops n m' (rw get-put (rw eq_refl)))
