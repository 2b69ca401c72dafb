-- ===== src/Tests/Auth.antt =====
-- Sessions in short runs.
use go_kube_ops_view.Prelude.{
  ◌≡◌, ◌≢◌, refl, none, some, List, [], ◌∷◌, ◌+◌, if◌then◌else◌, ok, err, ltb, arith, inr, ℕ,
}
use go_kube_ops_view.Dict
use go_kube_ops_view.Auth.Sessions.{
  User, Session, SessionManager, forward, new_session_manager, base64, session_expired,
  create_session, get_session, delete_user_sessions,
}
use go_kube_ops_view.Auth.Sessions.Runs.{Op, run, step}
use go_kube_ops_view.Auth.Sessions.Logout.{logout_everywhere}
use go_kube_ops_view.Auth.Sessions.Lifetime.{session_lifetime, new_session}

abbrev pub alice : User
alice = record {
  id = "alice";
  email = "alice@example.org";
  name = "Alice";
  username = "alice";
  groups = [];
  claims = none;
}

abbrev bob : User
bob = record alice { id = "bob" }

abbrev pub bytes : List ℕ
bytes = 77 ∷ 97 ∷ 110 ∷ []

encoded : base64 bytes ≡ "TWFu"
unfolding base64
encoded = refl

encoded_short : base64 (77 ∷ 97 ∷ []) ≡ "TWE="
unfolding base64
encoded_short = refl

abbrev manager : SessionManager
manager = new_session_manager (forward 100)

abbrev others : List Op
others =
    Op.create (some (1 ∷ 2 ∷ 3 ∷ [])) (some bob) 12
    ∷ Op.get "TWFu" 20 21
    ∷ Op.tick 60
    ∷ Op.delete_user "bob"
    ∷ []

session_lifetime_example :
    let s = new_session bytes alice 10 manager in
    let (r, m') = create_session (some bytes) (some alice) 10 manager in
    (r ≡ ok s)
    × ((get_session s.id 50 51 (run others m')).0 ≡ (
        if ltb (10 + manager.session_ttl) 50
        then err session_expired
        else ok (record s { last_seen = 51 })))
unfolding base64 new_session_manager
session_lifetime_example =
    session_lifetime manager bytes alice 10 50 51 others
      (refl, (inr (omega arith), (omega arith, (refl, tt))))

abbrev both : SessionManager
both = (create_session (some bytes) (some alice) 10 manager).1

abbrev again : List Op
again = Op.create (some (1 ∷ 2 ∷ 3 ∷ [])) (some bob) 12 ∷ []

abbrev bobs : Session
bobs = record (new_session (1 ∷ 2 ∷ 3 ∷ []) bob 12 manager) { last_seen = 14 }

bob_reads : (get_session "AQID" 13 14 (run again (delete_user_sessions "alice" both).1)).0 ≡ ok bobs
unfolding get_session run step delete_user_sessions create_session base64 new_session_manager
    Dict.get Dict.put Dict.delete_if
bob_reads = refl

logout_everywhere_example : bobs.user_id ≢ "alice"
logout_everywhere_example =
    logout_everywhere both "alice" "AQID" 13 14 again bobs (refl, tt) bob_reads
