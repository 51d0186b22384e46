-- ===== src/Service/Session/Trace/Revocation.antt =====
-- internal/service/session.go: the mark of revocation under calls and background touches.
use elysium.Prelude.{◌≡◌, ◌≢◌, Bool, true, false, Option, none, some, List, [], ◌∷◌, Text}
use elysium.Errors.{Result, ok, err}
use elysium.Dgraph.{Dgraph}
use elysium.Dgraph.Laws.{IsDgraph}
use elysium.World.{World}
use elysium.World.Keeps.{Keeps, keeps_rules}
use elysium.Domain.Session.{Session}
use elysium.Token.{
  Digest, OpaqueToken, generate, generate_access_token, generate_refresh_token, generate_jti,
  prefix_access, prefix_refresh,
}
use elysium.Repository.Session as Repo
use elysium.Repository.Session.Revoked.{
  IsRevoked, create-IsRevoked, revoke-IsRevoked, revoke_all-IsRevoked, touch-IsRevoked,
  rotate_tokens-IsRevoked,
}
use elysium.Service.Session.{
  SessionConfig, CreateSessionInput, RefreshInput, create, is_valid_now, check_valid, check_session,
  lookup_and_check, verify_token, revoke_quietly, rotated, rotate, refresh_found, refresh,
  logout_found, logout, logout_all, revoke_found, revoke_session, list_sessions,
}
use elysium.Service.Session.Activation.{
  ActivateInput, activate_valid, activate_found, activate_context,
}
use elysium.Service.Session.Verify.{lookup_and_check-IsAccepted}
use elysium.Service.Session.Trace.{
  Call, creates, verifies, refreshes, logs_out, logs_out_all, revokes, lists, activates,
  touches_one, run_touch, step, run,
}

module _ {Db : Type 0} {P : Db → Type 0} ⦃d : Digest⦄ where
  tokens_keep : (prefix : Text) → Keeps P (generate {Db = Db} prefix)
  unfolding generate
  tokens_keep prefix = search keeps_rules

  access_token-Keeps : Keeps P (generate_access_token {Db = Db})
  unfolding generate_access_token
  access_token-Keeps = tokens_keep prefix_access

  refresh_token-Keeps : Keeps P (generate_refresh_token {Db = Db})
  unfolding generate_refresh_token
  refresh_token-Keeps = tokens_keep prefix_refresh

module _ {Db : Type 0} {P : Db → Type 0} where
  jti-Keeps : Keeps P (generate_jti {Db = Db})
  unfolding generate_jti
  jti-Keeps = search keeps_rules

module _ {Db : Type 0} ⦃dg : Dgraph Db⦄ ⦃d : Digest⦄ (laws : IsDgraph dg) (u : Text) where
  ruleset step_rules = (
    keeps_rules, access_token-Keeps, refresh_token-Keeps, jti-Keeps, create-IsRevoked,
    revoke-IsRevoked, revoke_all-IsRevoked, touch-IsRevoked, rotate_tokens-IsRevoked,
  )

  service_create-IsRevoked :
      (c : SessionConfig) (i : CreateSessionInput) → Keeps (IsRevoked laws u) (create c i)
  unfolding create
  service_create-IsRevoked c i = search step_rules depth 12

  is_valid_now-IsRevoked : (sess : Session) → Keeps (IsRevoked laws u) (is_valid_now {Db = Db} sess)
  unfolding is_valid_now
  is_valid_now-IsRevoked sess = search step_rules depth 12

  check_valid-IsRevoked :
      (sess : Session) (b : Bool) → Keeps (IsRevoked laws u) (check_valid {Db = Db} sess b)
  unfolding check_valid
  check_valid-IsRevoked sess true = search step_rules
  check_valid-IsRevoked sess false = search step_rules

  check_session-IsRevoked :
      (o : Option Session) → Keeps (IsRevoked laws u) (check_session {Db = Db} o)
  unfolding check_session
  check_session-IsRevoked none = search step_rules
  check_session-IsRevoked (some sess) =
      search (step_rules, is_valid_now-IsRevoked, check_valid-IsRevoked)

  lookup_and_check-IsRevoked : (raw : Text) → Keeps (IsRevoked laws u) (lookup_and_check raw)
  unfolding lookup_and_check Repo.get_by_access_hash Repo.query_one
  lookup_and_check-IsRevoked raw = search (step_rules, check_session-IsRevoked) depth 8

  verify_token-IsRevoked : (raw : Text) → Keeps (IsRevoked laws u) (verify_token raw)
  unfolding verify_token
  verify_token-IsRevoked raw = record { at = λ w h. (lookup_and_check-IsRevoked raw).at w h }

  revoke_quietly-IsRevoked : (user_id : Text) → Keeps (IsRevoked laws u) (revoke_quietly user_id)
  unfolding revoke_quietly
  revoke_quietly-IsRevoked user_id = record {
    at = λ w h. (revoke_all-IsRevoked laws u user_id).at w h;
  }

  rotated-IsRevoked :
      (sess : Session) (atk rtk : OpaqueToken) (r : Result (Option Session))
      → Keeps (IsRevoked laws u) (rotated sess atk rtk r)
  unfolding rotated
  rotated-IsRevoked sess atk rtk (ok s) = search step_rules
  rotated-IsRevoked sess atk rtk (err e) = search (step_rules, revoke_quietly-IsRevoked)

  rotate-IsRevoked :
      (c : SessionConfig) (i : RefreshInput) (sess : Session)
      → Keeps (IsRevoked laws u) (rotate c i sess)
  unfolding rotate
  rotate-IsRevoked c i sess = search (step_rules, rotated-IsRevoked) depth 12

  refresh_found-IsRevoked :
      (c : SessionConfig) (i : RefreshInput) (o : Option Session)
      → Keeps (IsRevoked laws u) (refresh_found c i o)
  unfolding refresh_found
  refresh_found-IsRevoked c i none = search step_rules
  refresh_found-IsRevoked c i (some sess) =
      search (step_rules, revoke_quietly-IsRevoked, rotate-IsRevoked) depth 8

  refresh-IsRevoked :
      (c : SessionConfig) (i : RefreshInput) → Keeps (IsRevoked laws u) (refresh c i)
  unfolding refresh Repo.get_by_refresh_hash Repo.query_one
  refresh-IsRevoked c i = search (step_rules, refresh_found-IsRevoked) depth 8

  logout_found-IsRevoked : (o : Option Session) → Keeps (IsRevoked laws u) (logout_found o)
  unfolding logout_found
  logout_found-IsRevoked none = search step_rules
  logout_found-IsRevoked (some sess) = search step_rules

  logout-IsRevoked : (raw : Text) → Keeps (IsRevoked laws u) (logout raw)
  unfolding logout Repo.get_by_access_hash Repo.query_one
  logout-IsRevoked raw = search (step_rules, logout_found-IsRevoked) depth 8

  logout_all-IsRevoked : (user_id : Text) → Keeps (IsRevoked laws u) (logout_all user_id)
  unfolding logout_all
  logout_all-IsRevoked user_id = search step_rules

  revoke_found-IsRevoked :
      (id user_id : Text) (o : Option Session)
      → Keeps (IsRevoked laws u) (revoke_found id user_id o)
  unfolding revoke_found
  revoke_found-IsRevoked id user_id none = search step_rules
  revoke_found-IsRevoked id user_id (some sess) = search step_rules

  revoke_session-IsRevoked :
      (id user_id : Text) → Keeps (IsRevoked laws u) (revoke_session id user_id)
  unfolding revoke_session Repo.get_by_id
  revoke_session-IsRevoked id user_id = search (step_rules, revoke_found-IsRevoked) depth 8

  list_sessions-IsRevoked : (user_id : Text) → Keeps (IsRevoked laws u) (list_sessions user_id)
  unfolding list_sessions Repo.list_for_user
  list_sessions-IsRevoked user_id = search step_rules

  activate_valid-IsRevoked :
      (c : SessionConfig) (a : ActivateInput) (sess : Session) (b : Bool)
      → Keeps (IsRevoked laws u) (activate_valid c a sess b)
  unfolding activate_valid
  activate_valid-IsRevoked c a sess true = search (step_rules, service_create-IsRevoked)
  activate_valid-IsRevoked c a sess false = search step_rules

  activate_found-IsRevoked :
      (c : SessionConfig) (a : ActivateInput) (o : Option Session)
      → Keeps (IsRevoked laws u) (activate_found c a o)
  unfolding activate_found
  activate_found-IsRevoked c a none = search step_rules
  activate_found-IsRevoked c a (some sess) =
      search (step_rules, is_valid_now-IsRevoked, activate_valid-IsRevoked)

  activate_context-IsRevoked :
      (c : SessionConfig) (raw : Text) (a : ActivateInput)
      → Keeps (IsRevoked laws u) (activate_context c raw a)
  unfolding activate_context Repo.get_by_access_hash Repo.query_one
  activate_context-IsRevoked c raw a = search (step_rules, activate_found-IsRevoked) depth 8

  run_touch-IsRevoked :
      (c : SessionConfig) (w : World Db) (ids : List Text)
      → IsRevoked laws u w.db
      → IsRevoked laws u (run_touch c w ids).db
  unfolding run_touch
  run_touch-IsRevoked c w [] h = h
  run_touch-IsRevoked c w (id ∷ ids) h =
      (touch-IsRevoked laws u id).at (record w { touches = ids }) h

  step-IsRevoked :
      (c : SessionConfig) (k : Call) (w : World Db)
      → IsRevoked laws u w.db
      → IsRevoked laws u (step c k w).db
  unfolding step
  step-IsRevoked c (creates i) w h = (service_create-IsRevoked c i).at w h
  step-IsRevoked c (verifies raw) w h = (verify_token-IsRevoked raw).at w h
  step-IsRevoked c (refreshes i) w h = (refresh-IsRevoked c i).at w h
  step-IsRevoked c (logs_out raw) w h = (logout-IsRevoked raw).at w h
  step-IsRevoked c (logs_out_all user_id) w h = (logout_all-IsRevoked user_id).at w h
  step-IsRevoked c (revokes id user_id) w h = (revoke_session-IsRevoked id user_id).at w h
  step-IsRevoked c (lists user_id) w h = (list_sessions-IsRevoked user_id).at w h
  step-IsRevoked c (activates raw a) w h = (activate_context-IsRevoked c raw a).at w h
  step-IsRevoked c touches_one w h = run_touch-IsRevoked c w w.touches h

  pub run-IsRevoked :
      (c : SessionConfig) (ks : List Call) (w : World Db)
      → IsRevoked laws u w.db
      → IsRevoked laws u (run c ks w).db
  unfolding run
  run-IsRevoked c [] w h = h
  run-IsRevoked c (k ∷ ks) w h = run-IsRevoked c ks (step c k w) (step-IsRevoked c k w h)

  -- If the session under a uid is marked as revoked, then after any sequence of calls and background
  -- touches, failed ones included, `lookupAndCheck` never returns a session with that uid.
  pub revocation_is_final :
      (c : SessionConfig) (ks : List Call) (w : World Db) (raw : Text) (s : Session)
      → IsRevoked laws u w.db
      → (lookup_and_check raw (run c ks w)).0 ≡ ok s
      → s.id ≢ u
  revocation_is_final c ks w raw s h e same =
      let accepted = lookup_and_check-IsAccepted laws raw (run c ks w) s e in
      let revoked_now = run-IsRevoked c ks w h in
      cc (accepted.active, accepted.stored.marked, revoked_now)
