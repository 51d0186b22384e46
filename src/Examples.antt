-- ===== src/Examples.antt =====
-- Examples: a database in memory with three sessions, and in the children the theorems applied to it.
pub mod Sessions
pub mod Accounts
pub mod Users
pub mod Platform
pub mod Limits
pub mod Refresh
pub mod Transports
use elysium.Prelude.{ℕ, zero, suc, ◌*◌, ◌+◌, Option, some, List, [], ◌∷◌, ◌++◌, Text, lit}
use elysium.Dgraph.{uid, about, failed, Dgraph, uid_of}
use elysium.Dgraph.Memory.{run_commit, Memory, empty, written, memory, memory_laws}
use elysium.Dgraph.Laws.{
  holds_text, holds_true, fits_root, fits_filter, select, listed, put, put_all, target, set_all,
}
use elysium.Dgraph.Memory.{read, run_query, run_mutation, run_set, run_commit, next_uid}
use elysium.Dgraph.Schema.{is_list}
use elysium.World.{World}
use elysium.Domain.Session.{
  Session, SessionCreateInput, second, kind_user, is_expired, is_refresh_expired,
}
use elysium.Token.{
  Digest, hash_token, hex_encode, generate, generate_access_token, generate_refresh_token,
}
use elysium.Repository.Session.Quads.{
  rotation_pairs, successor, session_pairs, snapshot_pairs, revocation_pairs,
}
use elysium.Repository.Session.{session_repo, create}
use elysium.Repository.Session.Lookup.{session_at}
use elysium.Service.Session.{SessionConfig, revoke_session, revoke_found, logout, logout_found}
use elysium.Service.Session.Refusals.{refusal}
use elysium.Service.Session.Verify.{verification}
use elysium.Service.Session.Trace.{Call, logs_out, touches_one, run, step}

-- A stand-in for SHA-256.
instance abbrev pub digest : Digest
digest = record { sum256 = λ t. t }

abbrev pub input : Text → Text → SessionCreateInput
input user token = record {
  kind = kind_user;
  user_id = user;
  client_id = [];
  actor_id = [];
  actor_type = [];
  access_token_hash = hash_token (lit "atk_" ++ token);
  refresh_token_hash = hash_token (lit "rtk_" ++ token);
  refresh_jti = lit "jti_" ++ token;
  permissions = lit "trip.start" ∷ [];
  delegated_permissions = [];
  policy_groups = [];
  permission_version = 0;
  expires_at = 900 * second;
  refresh_expires_at = 2000 * second;
  user_agent = [];
  ip_address = [];
}

abbrev pub stored_session : Text → SessionCreateInput → Memory → Memory
stored_session id i db = written [] (about (uid id) (session_pairs i 0 ++ snapshot_pairs i)) db

-- 0x1 and 0x2 are sessions of ann, and 0x1 is revoked; 0x3 is one of bob.
abbrev pub two_users : Memory
two_users = written [] (about (uid (lit "0x1")) (revocation_pairs 0)) (
    stored_session (lit "0x1") (input (lit "ann") (lit "1")) (
      stored_session (lit "0x2") (input (lit "ann") (lit "2"))
        (stored_session (lit "0x3") (input (lit "bob") (lit "3")) empty)))

abbrev pub repeat : ℕ → ℕ → List ℕ
repeat zero b = []
repeat (suc n) b = b ∷ repeat n b

abbrev pub start : World Memory
start = record {
  db = two_users;
  clock = λ k. second * (10 + k);
  random = λ k n. some (repeat n (17 + k));
  touches = [];
}

abbrev pub config : SessionConfig
config = record { access_ttl = 0; refresh_ttl = 0 }

abbrev pub calls : List Call
calls = logs_out (lit "atk_3") ∷ touches_one ∷ []

abbrev pub first_session : Session
first_session = session_at memory_laws two_users (lit "0x1")

abbrev pub second_session : Session
second_session = session_at memory_laws two_users (lit "0x2")

abbrev pub third_session : Session
third_session = session_at memory_laws two_users (lit "0x3")

-- The session that `Create` makes in this database.
abbrev pub new_input : SessionCreateInput
new_input = input (lit "bob") (lit "4")

unfoldable pub new_session : Session
new_session = session_at memory_laws (create new_input start).1.db (next_uid two_users)

-- A database that answers no query.
abbrev pub unreachable : Dgraph Memory
unreachable = record memory { query = λ q db. failed }

-- Opening this opens what an example computes.
unfoldable pub evaluated : Unit {0}
unfolding memory_laws run_commit rotation_pairs successor verification session_repo run step
    revoke_session revoke_found holds_text holds_true read is_list run_query logout logout_found
    fits_root hash_token fits_filter run_mutation select listed next_uid run_set generate
    generate_access_token generate_refresh_token is_expired is_refresh_expired refusal new_session
    uid_of
evaluated = tt
