-- ===== src/Chan.antt =====
-- Go's buffered channels. `id` is the identity that `==` compares; a send to a closed channel and
-- a second `close` panic.
pub mod Lists
use go_kube_ops_view.Prelude.{
  ℕ, ◌≤◌, ◌≡◌, Bool, true, false, Option, none, some, List, [], ◌∷◌, ◌++◌, ltb, if◌then◌else◌,
  length, arith, length-append,
}

pub record Chan {ℓ} (A : Type ℓ) : Type ℓ where
  pub id : ℕ
  pub capacity : ℕ
  pub queue : List A
  pub closed : Bool

module _ {ℓ} {A : Type ℓ} where
  -- make(chan A, capacity)
  abbrev pub make : ℕ → ℕ → Chan A
  make id capacity = record { id = id; capacity = capacity; queue = []; closed = false }

  -- select { case ch <- a: default: }
  abbrev pub offer : A → Chan A → Option (Chan A)
  offer a ch =
      if ch.closed
      then none
      else some (
          if ltb (length ch.queue) ch.capacity
          then record ch { queue = ch.queue ++ a ∷ [] }
          else ch)

  -- A loop of non-blocking sends; `none` is the panic on a closed channel.
  unfoldable pub offer_all : A → List (Chan A) → Option (List (Chan A))
  offer_all a [] = some []
  offer_all a (ch ∷ chs) =
      let rest = offer_all a chs in
      elim (offer a ch) [
        | none ↦ none
        | some ch' ↦ elim rest [ none ↦ none | some l ↦ some (ch' ∷ l) ]
      ]

  -- close(ch); `none` is the panic on a closed channel.
  abbrev pub close : Chan A → Option (Chan A)
  close ch = if ch.closed then none else some (record ch { closed = true })

  -- for _, ch := range chs { close(ch) }
  unfoldable pub close_all : List (Chan A) → Option (List (Chan A))
  close_all [] = some []
  close_all (ch ∷ chs) =
      let rest = close_all chs in
      elim (close ch) [
        | none ↦ none
        | some ch' ↦ elim rest [ none ↦ none | some l ↦ some (ch' ∷ l) ]
      ]

  -- A channel that is in use: open, and its buffer not over-full.
  pub record IsLive (ch : Chan A) : Type ℓ where
    pub is_open : ch.closed ≡ false
    pub bounded : length ch.queue ≤ ch.capacity

  -- What a non-blocking send leaves in the buffer of an open channel.
  abbrev pub sent : A → Chan A → Chan A
  sent a ch =
      if ltb (length ch.queue) ch.capacity then record ch { queue = ch.queue ++ a ∷ [] } else ch

  pub sent-IsLive : (a : A) {ch : Chan A} → IsLive ch → IsLive (sent a ch)
  sent-IsLive a {ch} h = ground (arith, length-append ch.queue (a ∷ []))
