-- ===== src/Errors/Retry.antt =====
-- `RetryWithBackoff` of internal/errors/handler.go. The operation and the wait for the delay or the
-- end of the context change a state that is left open. Delays are natural numbers and the multiplier
-- is one too; the doubling does not overflow.
use go_kube_ops_view.Prelude.{
  ℕ, zero, suc, ◌-◌, ◌*◌, ◌<◌, ◌≤◌, ◌≡◌, ◌≢◌, sym, ap, ◌⊎◌, inl, inr, ◌∙◌, true, false, Option,
  none, some, Option-cases, not, nat_eq, ltb, if◌then◌else◌, Result, ok, err, panic, arith,
}
use go_kube_ops_view.Models.{Time}
use go_kube_ops_view.Errors.{GoError, is_retryable_error}

pub record RetryConfig : Type 0 where
  pub max_attempts : ℕ
  pub base_delay : Time
  pub max_delay : Time
  pub multiplier : ℕ

-- 1 << n
abbrev pub doubled : ℕ → ℕ
doubled zero = 1
doubled (suc n) = 2 * doubled n

-- The delay after the attempt with a number, which is 1 or more.
abbrev pub delay_after : RetryConfig → ℕ → Time
delay_after config attempt =
    let delay = config.base_delay * doubled (attempt - 1) * config.multiplier in
    if ltb config.max_delay delay then config.max_delay else delay

abbrev pub as_result : {C : Type 0} → Option (GoError C) → Result (GoError C) (Unit {0})
as_result none = ok tt
as_result (some e) = err e

module _ {C S : Type 0} (config : RetryConfig) (operation : S → Option (GoError C) × S)
    (wait : Time → S → Option (GoError C) × S) where
  -- The rounds of the loop: how many are left, and the number of the next. Without any round,
  -- `lastErr` is nil and its `Error` panics.
  unfoldable pub rounds : ℕ → ℕ → S → Result (GoError C) (Unit {0}) × S
  rounds zero attempt s = (panic, s)
  rounds (suc left) attempt s =
      let (r, called) = operation s in
      let (cancelled, waited) = wait (delay_after config attempt) called in
      let rest = rounds left (suc attempt) waited in
      elim r [
        | none ↦ (ok tt, called)
        | some e ↦
            if not (is_retryable_error (some e))
            then (err e, called)
            else if nat_eq left 0
            then (err e, called)
            else elim cancelled [ some e' ↦ (err e', waited) | none ↦ rest ]
      ]

  unfoldable pub retry_with_backoff : S → Result (GoError C) (Unit {0}) × S
  retry_with_backoff s = rounds config.max_attempts 1 s

  -- The state after a failed attempt and the wait that follows it.
  abbrev pub next : ℕ → S → S
  next attempt s = (wait (delay_after config attempt) (operation s).1).1

  -- The state in which the attempt comes that follows `k` failed ones.
  abbrev pub state_at : ℕ → ℕ → S → S
  state_at attempt zero s = s
  state_at attempt (suc k) s = state_at (suc attempt) k (next attempt s)

  -- `k` attempts fail with errors that are worth another, and no wait is cut short.
  abbrev pub KeepTrying : ℕ → ℕ → S → Type 0
  KeepTrying attempt zero s = Unit
  KeepTrying attempt (suc k) s =
      (is_retryable_error (operation s).0 ≡ true)
      × ((wait (delay_after config attempt) (operation s).1).0 ≡ none)
      × KeepTrying (suc attempt) k (next attempt s)

  once_more :
      (left attempt : ℕ) (s : S)
      → is_retryable_error (operation s).0 ≡ true
      → (wait (delay_after config attempt) (operation s).1).0 ≡ none
      → 0 < left
      → rounds (suc left) attempt s ≡ rounds left (suc attempt) (next attempt s)
  unfolding rounds is_retryable_error
  once_more left attempt s r w l = elim (Option-cases (operation s).0) [
    | inl e ↦ cc (rw (e, is_retryable_error) at r)
    | inr (x, e) ↦ ground (arith, e, r, w)
  ]

  last_round :
      (left attempt : ℕ) (s : S)
      → (left ≡ 0) ⊎ (is_retryable_error (operation s).0 ≡ false)
      → rounds (suc left) attempt s ≡ (as_result (operation s).0, (operation s).1)
  unfolding rounds
  last_round left attempt s h = elim (Option-cases (operation s).0) [
    | inl e ↦ ground (arith, e)
    | inr (x, e) ↦ elim h [ inl z ↦ ground (arith, e, z) | inr n ↦ ground (arith, e, n) ]
  ]

  rounds_end :
      (n k attempt : ℕ) (s : S)
      → KeepTrying attempt k s
      → k ≤ n
      → (n ≡ k) ⊎ (is_retryable_error (operation (state_at attempt k s)).0 ≡ false)
      → rounds (suc n) attempt s
        ≡ (as_result (operation (state_at attempt k s)).0, (operation (state_at attempt k s)).1)
  rounds_end n zero attempt s h l e = last_round n attempt s e
  rounds_end zero (suc k) attempt s h l e = absurd (omega arith)
  rounds_end (suc n) (suc k) attempt s h l e =
      once_more (suc n) attempt s h.0 h.1 (omega arith)
      ∙ rounds_end n k (suc attempt) (next attempt s) h.2 (omega arith)
          (elim e [ inl z ↦ inl (omega arith) | inr r ↦ inr r ])

  -- While the attempts before the `k + 1`th fail with errors worth another and no wait is cut short,
  -- the call goes on to that attempt; it returns what that attempt returns, in the state that it
  -- leaves and without another attempt, if it succeeds, fails otherwise or is the last one.
  pub retry_lem :
      (k : ℕ) (s : S)
      → KeepTrying 1 k s
      → k < config.max_attempts
      → (config.max_attempts ≡ suc k) ⊎ (is_retryable_error (operation (state_at 1 k s)).0 ≡ false)
      → retry_with_backoff s
        ≡ (as_result (operation (state_at 1 k s)).0, (operation (state_at 1 k s)).1)
  unfolding retry_with_backoff
  retry_lem k s h l e =
      let n = config.max_attempts - 1 in
      let same : config.max_attempts ≡ suc n = omega arith in
      ap (λ m. rounds m 1 s) same
      ∙ rounds_end n k 1 s h (omega arith) (elim e [ inl z ↦ inl (omega arith) | inr r ↦ inr r ])

  -- At least one attempt allowed: the call never panics, whatever the operation and the waits do.
  no_panic_rounds : (left attempt : ℕ) (s : S) → (rounds (suc left) attempt s).0 ≢ panic
  unfolding rounds
  no_panic_rounds zero attempt s h = elim (Option-cases (operation s).0) [
    | inl e ↦ ground (arith, e)
    | inr (x, e) ↦ ground (arith, e)
  ]
  no_panic_rounds (suc left) attempt s h =
      let later = no_panic_rounds left (suc attempt) (next attempt s) in
      elim (Option-cases (operation s).0) [
        | inl e ↦ ground (arith, e)
        | inr (x, e) ↦ ground (arith, e, later)
      ]

  pub retry_total : (s : S) → 0 < config.max_attempts → (retry_with_backoff s).0 ≢ panic
  unfolding retry_with_backoff
  retry_total s l h =
      let same : config.max_attempts ≡ suc (config.max_attempts - 1) = omega arith in
      no_panic_rounds (config.max_attempts - 1) 1 s (sym (ap (λ m. (rounds m 1 s).0) same) ∙ h)
