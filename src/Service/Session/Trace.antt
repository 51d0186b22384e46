-- ===== src/Service/Session/Trace.antt =====
-- internal/service/session.go as a state machine: the service under any sequence of calls, with the
-- background touches that `lookupAndCheck` starts.
pub mod Revocation
pub mod Touch
use elysium.Prelude.{
  ℕ, ◌≡◌, ◌≢◌, refl, sym, ap, ◌∙◌, Bool, true, false, Option, none, some, List, [], ◌∷◌, Text,
  arith, if◌then◌else◌,
}
use elysium.Errors.{Result, ok, err}
use elysium.Dgraph.{Dgraph}
use elysium.Dgraph.Laws.{IsDgraph}
use elysium.World.{World, Action, fail}
use elysium.World.Keeps.{Keeps, keeps_rules}
use elysium.Domain.Session.{Session}
use elysium.Token.{
  Digest, OpaqueToken, generate, generate_access_token, generate_refresh_token, generate_jti,
  prefix_access, prefix_refresh,
}
use elysium.Repository.Session as Repo
use elysium.Repository.Session.Revoked.{
  IsRevoked, create-IsRevoked, revoke-IsRevoked, revoke_all-IsRevoked, touch-IsRevoked,
  rotate_tokens-IsRevoked,
}
use elysium.Service.Session.{
  SessionConfig, CreateSessionInput, RefreshInput, SessionOutput, create, is_valid_now, check_valid,
  check_session, lookup_and_check, verify_token, revoke_quietly, rotated, rotate, refresh_found,
  refresh, logout_found, logout, logout_all, revoke_found, revoke_session, list_sessions,
}
use elysium.Service.Session.Activation.{
  ActivateInput, activate_valid, activate_found, activate_context,
}
use elysium.Service.Session.Verify.{IsAccepted, lookup_and_check-IsAccepted}

pub data Call : Type 0 where
  creates : CreateSessionInput → Call
  verifies : Text → Call
  refreshes : RefreshInput → Call
  logs_out : Text → Call
  logs_out_all : Text → Call
  revokes : Text → Text → Call
  lists : Text → Call
  activates : Text → ActivateInput → Call
  touches_one : Call

module _ {Db : Type 0} ⦃dg : Dgraph Db⦄ ⦃d : Digest⦄ (c : SessionConfig) where
  -- One background task runs: its error is logged only.
  unfoldable pub run_touch : World Db → List Text → World Db
  run_touch w [] = w
  run_touch w (id ∷ ids) = (Repo.touch id (record w { touches = ids })).1

  unfoldable pub step : Call → World Db → World Db
  unfolding run_touch
  step (creates i) w = (create c i w).1
  step (verifies raw) w = (verify_token raw w).1
  step (refreshes i) w = (refresh c i w).1
  step (logs_out raw) w = (logout raw w).1
  step (logs_out_all user_id) w = (logout_all user_id w).1
  step (revokes id user_id) w = (revoke_session id user_id w).1
  step (lists user_id) w = (list_sessions user_id w).1
  step (activates raw a) w = (activate_context c raw a w).1
  step touches_one w = run_touch w w.touches

  unfoldable pub run : List Call → World Db → World Db
  unfolding step
  run [] w = w
  run (k ∷ ks) w = run ks (step k w)
