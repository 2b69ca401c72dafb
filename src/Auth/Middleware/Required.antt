-- ===== src/Auth/Middleware/Required.antt =====
-- What `RequireAuth` of internal/auth/middleware.go lets through.
use go_kube_ops_view.Prelude.{
  String, ◌≡◌, Bool, true, false, Option, none, some, Result, ok, err, panic, not, ◌||◌, ltb, arith,
  inl, inr, Result-split,
}
use go_kube_ops_view.Dict
use go_kube_ops_view.Models.{Time}
use go_kube_ops_view.Auth.Sessions.{Session, SessionManager, get_session}
use go_kube_ops_view.Auth.Sessions.Calls.{
  found, missing, late, live, get_missing, get_late, get_live,
}
use go_kube_ops_view.Auth.Middleware.{
  Request, Middleware, Verdict, pass, stop, session_id, get_session_from_request, bears_token,
  require_auth,
}

abbrev pub passes : Verdict → Bool
passes (pass s) = true
passes (stop l) = false

abbrev pub lives : Time → Option Session → Bool
lives now none = false
lives now (some s) = not (ltb s.expires_at now)

-- The request bears the ID of a session that is there and has not expired.
abbrev pub bears_session : Request → Time → SessionManager → Bool
bears_session r now sm = elim (session_id r) [
  | ok id ↦ lives now (Dict.get sm.sessions id)
  | err e ↦ false
  | panic ↦ false
]

abbrev is_ok {ℓ} : {E A : Type ℓ} → Result E A → Bool
is_ok (ok a) = true
is_ok (err e) = false
is_ok panic = false

get-is_ok :
    (id : String) (now seen : Time) (sm : SessionManager)
    → is_ok (get_session id now seen sm).0 ≡ lives now (Dict.get sm.sessions id)
get-is_ok id now seen sm = elim (found id now sm) [
  | missing e ↦ let q = get_missing id now seen sm e in ground (arith, q, e)
  | late s e l ↦ let q = get_late id now seen sm e l in ground (arith, q, e, l)
  | live s e l ↦ let q = get_live id now seen sm e l in ground (arith, q, e, l)
]

request-is_ok :
    (r : Request) (now seen : Time) (sm : SessionManager)
    → is_ok (get_session_from_request r now seen sm).0 ≡ bears_session r now sm
unfolding get_session_from_request
request-is_ok r now seen sm = elim (Result-split (session_id r)) [
  | inl (id, q) ↦ let g = get-is_ok id now seen sm in ground (arith, q, g)
  | inr (inl (e, q)) ↦ ground (arith, q)
  | inr (inr q) ↦ ground (arith, q)
]

-- `RequireAuth` lets a request through exactly if authentication is off, or the request bears a
-- screen token that is asked for and valid, or it bears the ID of a session that is there and has
-- not expired.
pub require_auth_lem :
    (m : Middleware) (valid : String → Bool) (r : Request) (now seen : Time) (sm : SessionManager)
    → passes (require_auth m valid r now seen sm).0
      ≡ (not m.enabled || bears_token m valid r || bears_session r now sm)
unfolding require_auth
require_auth_lem m valid r now seen sm = let g = request-is_ok r now seen sm in ground (arith, g)
