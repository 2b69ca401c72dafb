-- ===== src/Events/Publisher/Runs.antt =====
-- Calls of a `Publisher` (internal/events/publisher.go) in any order, over any store that others may
-- change in between, with subscribers that read from their channels.
pub mod Calls
pub mod Safety
use go_kube_ops_view.Prelude.{ℕ, String, List, [], ◌∷◌, map, nat_eq, if◌then◌else◌}
use go_kube_ops_view.Models.{Time}
use go_kube_ops_view.Store.{Payload}
use go_kube_ops_view.Store.Memory.Runs.{take_first}
use go_kube_ops_view.Events.{StoreApi}
use go_kube_ops_view.Events.Publisher.Broadcast.{take_event}
use go_kube_ops_view.Events.Publisher.{Subscriber, State, publish, subscribe, unsubscribe, close}

pub data Op (S : Type 0) : Type 0 where
  post : String → Payload → String → Time → Op S
  join : List String → Time → Op S
  leave : ℕ → Op S
  shut : Op S
  receive : ℕ → Op S
  elsewhere : (S → S) → Op S

-- The subscriber with the number takes the next event from its channel.
abbrev pub receive_from : ℕ → List Subscriber → List Subscriber
receive_from id l = map (take_event id) l

module _ (api : StoreApi) where
  unfoldable pub step : Op api.State → State api → State api
  step (post kind payload id now) p = (publish api kind payload id now p).1
  step (join ids now) p = (subscribe api ids now p).1
  step (leave id) p = (unsubscribe api id p).1
  step shut p = (close api p).1
  step (receive id) p = record p { subscribers = receive_from id p.subscribers }
  step (elsewhere f) p = record p { store = f p.store }

  unfoldable pub run : List (Op api.State) → State api → State api
  run [] p = p
  run (o ∷ ops) p = run ops (step o p)
