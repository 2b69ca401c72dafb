-- ===== src/Auth/Manager/Runs.antt =====
-- Requests to the routes of internal/auth/manager.go and to what its middleware guards, in any order,
-- with the clean-up of sessions in between.
use go_kube_ops_view.Prelude.{ℕ, String, ◌≡◌, Bool, false, Option, none, some, List, [], ◌∷◌, ◌==◌}
use go_kube_ops_view.Models.{Time}
use go_kube_ops_view.Auth.Sessions.{base64, cleanup_expired_sessions}
use go_kube_ops_view.Auth.Oauth.{Provider}
use go_kube_ops_view.Auth.Middleware.{Request, Middleware, require_auth}
use go_kube_ops_view.Auth.Manager.{Manager, Instants, handle_login, handle_callback, handle_logout}

pub data Visit : Type 0 where
  login : Request → Option (List ℕ) → Time → Time → Visit
  callback : Request → Instants → Visit
  logout : Request → Visit
  -- a request that must be authenticated, with the screen tokens that are valid then
  guarded : (String → Bool) → Request → Time → Time → Visit
  cleanup : Time → Visit

module _ (net : Provider) where
  -- NewMiddleware(sessionManager, store, cfg.Enabled, cfg.ScreenTokens)
  abbrev pub middleware_of : Manager net → Middleware
  middleware_of m = record { enabled = m.enabled; screen_tokens = m.screen_tokens }

  unfoldable pub step : Visit → Manager net → Manager net
  step (login r bytes now later) m = (handle_login net r bytes now later m).1
  step (callback r t) m = (handle_callback net r t m).1
  step (logout r) m = (handle_logout net r m).1
  step (guarded valid r now seen) m = record m {
    sessions = (require_auth (middleware_of m) valid r now seen m.sessions).1;
  }
  step (cleanup now) m = record m { sessions = cleanup_expired_sessions now m.sessions }

  unfoldable pub run : List Visit → Manager net → Manager net
  run [] m = m
  run (v ∷ vs) m = run vs (step v m)

abbrev pub IsOther : String → Option (List ℕ) → Type 0
IsOther text none = Unit
IsOther text (some bytes) = (base64 bytes == text) ≡ false

-- No login draws the state again.
abbrev pub IsOtherState : String → Visit → Type 0
IsOtherState state (login _ bytes _ _) = IsOther state bytes
IsOtherState state _ = Unit

-- No sign-in draws the session ID again.
abbrev pub IsOtherSession : String → Visit → Type 0
IsOtherSession id (callback _ t) = IsOther id t.bytes
IsOtherSession id _ = Unit
