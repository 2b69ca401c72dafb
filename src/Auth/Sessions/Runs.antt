-- ===== src/Auth/Sessions/Runs.antt =====
-- Calls of a session manager (internal/auth/session.go) in any order, and ticks of its clean-up.
use go_kube_ops_view.Prelude.{ℕ, String, Option, List, [], ◌∷◌, All}
use go_kube_ops_view.Models.{Time}
use go_kube_ops_view.Auth.Sessions.{
  User, SessionManager, create_session, get_session, refresh_session, delete_session,
  delete_user_sessions, cleanup_expired_sessions,
}
use go_kube_ops_view.Auth.Sessions

pub data Op : Type 0 where
  create : Option (List ℕ) → Option User → Time → Op
  get : String → Time → Time → Op
  refresh : String → Time → Time → Time → Op
  delete : String → Op
  delete_user : String → Op
  tick : Time → Op
  close : Op

unfoldable pub step : Op → SessionManager → SessionManager
step (create bytes user now) m = (create_session bytes user now m).1
step (get id now seen) m = (get_session id now seen m).1
step (refresh id now seen from) m = (refresh_session id now seen from m).1
step (delete id) m = (delete_session id m).1
step (delete_user id) m = (delete_user_sessions id m).1
step (tick now) m = cleanup_expired_sessions now m
step close m = (Sessions.close m).1

unfoldable pub run : List Op → SessionManager → SessionManager
run [] m = m
run (o ∷ ops) m = run ops (step o m)

-- What every call that is allowed keeps holds after a run of such calls.
pub run_induction :
    {I : SessionManager → Type 0} {Allowed : Op → Type 0}
    → ((o : Op) (m : SessionManager) → Allowed o → I m → I (step o m))
    → (ops : List Op) (m : SessionManager) → All Allowed ops
    → I m
    → I (run ops m)
unfolding run
run_induction keep [] m a h = h
run_induction {I = I} {Allowed = Allowed} keep (o ∷ ops) m a h =
    run_induction {I = I} {Allowed = Allowed} keep ops (step o m) a.1 (keep o m a.0 h)
