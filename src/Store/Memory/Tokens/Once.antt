-- ===== src/Store/Memory/Tokens/Once.antt =====
-- A screen token of internal/store/memory.go that was redeemed cannot be redeemed again.
use go_kube_ops_view.Prelude.{
  ℕ, String, ◌≡◌, ◌≢◌, Bool, true, false, Option, none, some, List, [], ◌∷◌, arith, eq_iff, ◌==◌,
  ok, All, Option-cases, inl, inr, eq_refl,
}
use go_kube_ops_view.Dict
use go_kube_ops_view.Dict.{get-put, get-remove, get-delete_if}
use go_kube_ops_view.Models.{Time}
use go_kube_ops_view.Store.{ScreenToken}
use go_kube_ops_view.Store.Memory.{
  MemoryStore, hex, is_expired, create_screen_token, redeem_screen_token, delete_screen_token,
  get_token_count,
}
use go_kube_ops_view.Store.Memory.Runs.{Op, create, redeem, revoke, count, step, run}
use go_kube_ops_view.Store.Memory.Tokens.Frame.{
  tokens-set_cluster_data, tokens-set_cluster_status, tokens-delete_cluster, tokens-publish_event,
  tokens-subscribe, tokens-unsubscribe, tokens-close,
}

-- A token that no call can redeem: absent, or used.
abbrev spent : Option ScreenToken → Bool
spent none = true
spent (some t) = elim t.used_at [ none ↦ false | some _ ↦ true ]

abbrev IsSpent : String → MemoryStore → Type 0
IsSpent token m = spent (Dict.get m.tokens token) ≡ true

-- The call does not issue the token.
abbrev pub IsNotIssue : String → Op → Type 0
IsNotIssue token (create (some bytes) _ _ _) = (hex bytes == token) ≡ false
IsNotIssue token _ = Unit

create-IsSpent :
    (token : String) (random : Option (List ℕ)) (now created expires : Time) (m : MemoryStore)
    → IsNotIssue token (create random now created expires)
    → IsSpent token m
    → IsSpent token (create_screen_token random now created expires m).1
unfolding create_screen_token
create-IsSpent token none now created expires m n h = h
create-IsSpent token (some bytes) now created expires m n h =
    rw get-put (rw (n, get-delete_if) (ground arith))

redeem-IsSpent :
    (token t addr : String) (now used : Time) (m : MemoryStore)
    → IsSpent token m
    → IsSpent token (redeem_screen_token t addr now used m).1
unfolding redeem_screen_token
redeem-IsSpent token t addr now used m h = elim (Option-cases (Dict.get m.tokens t)) [
  | inl e ↦ rw (e, redeem_screen_token) h
  | inr (s, e) ↦
      rw (e, redeem_screen_token)
        (ground (
          arith,
          eq_iff t token,
          get-remove m.tokens t token,
          get-put m.tokens t token (record s { used_at = some used; remote_addr = addr }),
        ))
]

revoke-IsSpent :
    (token t : String) (m : MemoryStore)
    → IsSpent token m
    → IsSpent token (delete_screen_token t m).1
unfolding delete_screen_token
revoke-IsSpent token t m h = ground (arith, get-remove m.tokens t token)

count-IsSpent :
    (token : String) (now : Time) (m : MemoryStore)
    → IsSpent token m
    → IsSpent token (get_token_count now m).1
unfolding get_token_count
count-IsSpent token now m h = ground (arith, get-delete_if (is_expired now) m.tokens token)

step-IsSpent :
    (token : String) (o : Op)
    → IsNotIssue token o
    → (m : MemoryStore) → IsSpent token m
    → IsSpent token (step o m)
unfolding step
step-IsSpent token (create random now created expires) n m h =
    create-IsSpent token random now created expires m n h
step-IsSpent token (redeem t addr now used) n m h = redeem-IsSpent token t addr now used m h
step-IsSpent token (revoke t) n m h = revoke-IsSpent token t m h
step-IsSpent token (count now) n m h = count-IsSpent token now m h
step-IsSpent token (Op.set_data id cd) n m h = rw tokens-set_cluster_data h
step-IsSpent token (Op.set_status id cd) n m h = rw tokens-set_cluster_status h
step-IsSpent token (Op.delete id) n m h = rw tokens-delete_cluster h
step-IsSpent token (Op.publish kind payload now) n m h = rw tokens-publish_event h
step-IsSpent token Op.join n m h = rw tokens-subscribe h
step-IsSpent token (Op.leave id) n m h = rw tokens-unsubscribe h
step-IsSpent token Op.shut n m h = rw tokens-close h
step-IsSpent token (Op.receive id) n m h = h

run-IsSpent :
    (token : String) (ops : List Op)
    → All (IsNotIssue token) ops
    → (m : MemoryStore) → IsSpent token m
    → IsSpent token (run ops m)
unfolding run
run-IsSpent token [] n m h = h
run-IsSpent token (o ∷ ops) n m h =
    run-IsSpent token ops n.1 (step o m) (step-IsSpent token o n.0 m h)

redeemed-IsSpent :
    (token addr : String) (now used : Time) (m : MemoryStore)
    → (redeem_screen_token token addr now used m).0 ≡ ok tt
    → IsSpent token (redeem_screen_token token addr now used m).1
unfolding redeem_screen_token
redeemed-IsSpent token addr now used m h = elim (Option-cases (Dict.get m.tokens token)) [
  | inl e ↦ rw (e, redeem_screen_token) (ground arith)
  | inr (s, e) ↦
      rw (e, redeem_screen_token)
        (ground (
          arith,
          h,
          eq_iff token token,
          eq_refl token,
          get-remove m.tokens token token,
          get-put m.tokens token token (record s { used_at = some used; remote_addr = addr }),
        ))
]

redeem_of_spent :
    (token addr : String) (now used : Time) (m : MemoryStore)
    → IsSpent token m
    → (redeem_screen_token token addr now used m).0 ≢ ok tt
unfolding redeem_screen_token
redeem_of_spent token addr now used m h = ground arith

-- A screen token is redeemed at most once: after a redemption that succeeded, whatever calls are
-- made of the store and at whatever times, no redemption of the same token succeeds, unless a call
-- of `CreateScreenToken` has issued the same text again.
pub redeem_once :
    (m : MemoryStore) (token addr addr' : String) (now used now' used' : Time) (ops : List Op)
    → (redeem_screen_token token addr now used m).0 ≡ ok tt
    → All (IsNotIssue token) ops
    → (redeem_screen_token token addr' now' used'
        (run ops (redeem_screen_token token addr now used m).1)).0
      ≢ ok tt
redeem_once m token addr addr' now used now' used' ops h n =
    redeem_of_spent token addr' now' used' _
      (run-IsSpent token ops n _ (redeemed-IsSpent token addr now used m h))
