-- ===== src/Examples/Sessions.antt =====
-- Examples on sessions.
use elysium.Service.Session.Trace.Touch.{touch-verify_token}
use elysium.Service.Session.Trace.{run, verifies, touches_one}
use elysium.Prelude.{
  [], ◌∷◌, zero, suc, str_eq, All, ℕ, zero, suc, ◌*◌, All, arith, ◌≡◌, refl, ◌≢◌, ◌⊎◌, true, false,
  some, [], ◌++◌, Text, lit, length,
}
use elysium.Errors.{Sentinel, ok, err, sentinel, errors_is, wrap, outside, refresh_expired}
use elysium.Dgraph.Memory.{next_uid, Memory, memory, memory_laws}
use elysium.World.{World}
use elysium.Domain.Session.{SessionRefreshInput, Session, Principal, second}
use elysium.Token.{OpaqueToken, hash_token, generate, prefix_access, prefix_refresh, hex_encode}
use elysium.Token.Laws.{
  IsByte, IsHexDigit, from_hex, generate_digits, access-ne-refresh, generate-injective,
}
use elysium.Repository.Session.Revoked.{IsRevoked}
use elysium.Repository.Session.{rotate_tokens, id_query, create, revoke_all_for_user}
use elysium.Repository.Session.Bulk.{belongs_to, revoke_all-revokes}
use elysium.Repository.Session.Creation.Stored.{IsStored, create-IsStored}
use elysium.Service.Session.{
  RefreshInput, session_to_principal, verify_token, refresh, revoke_session,
}
use elysium.Service.Session.Verify.{
  IsAccepted, verdict, verify_token_sound, verify_token-verdict, verify_token_unavailable,
}
use elysium.Service.Session.Refusals.{refresh-refusal}
use elysium.Repository.Session.Rotation.{IsOld, IsRotated}
use elysium.Repository.Session.Rotation.Stored.{rotate_tokens-IsRotated}
use elysium.Service.Session.Ownership.{revoke_session_sound}
use elysium.Repository.Session.Lookup.{IsFound, session_at}
use elysium.Repository.Session.Wire.{SessionNode, session_fields}
use elysium.Service.Session.Trace.Revocation.{revocation_is_final}
use elysium.Examples.{
  digest, two_users, start, config, calls, first_session, second_session, new_input, new_session,
  unreachable, evaluated, repeat,
}

revocation_is_final_example : second_session.id ≢ lit "0x1"
unfolding evaluated
revocation_is_final_example =
    revocation_is_final memory_laws (lit "0x1") config calls start (lit "atk_2") second_session refl
      refl

abbrev ann : Principal
ann = session_to_principal second_session

verify_token_sound_example :
    (s : Session) × IsAccepted memory_laws (lit "atk_2") start s × (ann ≡ session_to_principal s)
unfolding evaluated
verify_token_sound_example = verify_token_sound memory_laws (lit "atk_2") start ann refl

verify_token-verdict_example :
    (verify_token (lit "atk_1") start).0 ≡ verdict (some first_session) (start.clock 0)
unfolding evaluated
verify_token-verdict_example = verify_token-verdict (lit "atk_1") start (some first_session) refl

create-IsStored_example :
    IsStored memory_laws new_input start (create new_input start).1.db new_session
unfolding evaluated
create-IsStored_example = create-IsStored memory_laws new_input start new_session refl

revoke_all-revokes_example :
    ((belongs_to memory_laws (lit "ann") start.db (lit "0x2") ≡ true)
      × IsRevoked memory_laws (lit "0x2") (revoke_all_for_user (lit "ann") start).1.db)
    ⊎ ((belongs_to memory_laws (lit "ann") start.db (lit "0x2") ≡ false)
        × (memory_laws.read (revoke_all_for_user (lit "ann") start).1.db (lit "0x2")
            ≡ memory_laws.read start.db (lit "0x2")))
unfolding evaluated
revoke_all-revokes_example = revoke_all-revokes memory_laws (lit "ann") start (lit "0x2") refl

abbrev replayed : RefreshInput
replayed = record { raw_refresh_token = lit "rtk_1"; user_agent = []; ip_address = [] }

-- Long after the refresh expiry of every session.
abbrev late : World Memory
late = record start { clock = λ k. 5000 * second }

abbrev overdue : RefreshInput
overdue = record { raw_refresh_token = lit "rtk_2"; user_agent = []; ip_address = [] }

refresh-refusal_example :
    ((refresh config overdue late).0 ≡ err (sentinel refresh_expired))
    × (((refresh config overdue late).1.db ≡ late.db)
        ⊎ ((sess : Session) × (some second_session ≡ some sess)
            × (sess.revoked ≡ true)
            × ((refresh config overdue late).1 ≡ (revoke_all_for_user sess.user_id late).1)))
unfolding evaluated
refresh-refusal_example =
    refresh-refusal config overdue late (some second_session) refresh_expired refl refl

revoke_session_sound_example :
    (s : Session) × IsFound memory_laws (id_query (lit "0x2") session_fields) two_users s
    × (s.user_id ≡ lit "ann")
    × IsRevoked memory_laws s.id (revoke_session (lit "0x2") (lit "ann") start).1.db
unfolding evaluated
revoke_session_sound_example = revoke_session_sound memory_laws (lit "0x2") (lit "ann") start refl

verify_token_unavailable_example :
    ((verify_token ⦃dg = unreachable⦄ (lit "atk_2") start).0
      ≡ err (wrap "looking up session" (wrap "dgraph: query session" (outside "dgraph query"))))
    × ((s : Sentinel) → errors_is (wrap "dgraph: query session" (outside "dgraph query")) s ≡ false)
unfolding evaluated
verify_token_unavailable_example =
    verify_token_unavailable ⦃dg = unreachable⦄ (lit "atk_2") start
      (wrap "dgraph: query session" (outside "dgraph query")) refl

touch-verify_token_example :
    (memory_laws.read
        (run config (verifies (lit "atk_2") ∷ touches_one ∷ []) start).db
        (lit "0x2")
        "session.last_seen_at"
      ≡ memory_laws.read two_users (lit "0x2") "session.last_seen_at")
    ⊎ ((str_eq "session.last_seen_at" "session.last_seen_at" ≡ true)
        × ((s : Session) × IsAccepted memory_laws (lit "atk_2") start s × (s.id ≡ lit "0x2")))
touch-verify_token_example =
    touch-verify_token memory_laws config (lit "atk_2") start (lit "0x2") "session.last_seen_at"
      refl

abbrev thirty_two : Text
thirty_two = repeat 32 17

same_bytes : (s : Text) → All IsByte s → All IsByte (digest.sum256 s)
same_bytes s h = h

all_bytes : (n b : ℕ) → IsByte b → All IsByte (repeat n b)
all_bytes zero b h = tt
all_bytes (suc n) b h = (h, all_bytes n b h)

prefix_bytes : All IsByte prefix_access
prefix_bytes = (omega arith, (omega arith, (omega arith, (omega arith, tt))))

generate_digits_example :
    (t : OpaqueToken) × (digits : Text) × ((generate prefix_access start).0 ≡ ok t)
    × (t.raw ≡ prefix_access ++ digits)
    × (length digits ≡ 64)
    × All IsHexDigit digits
    × (from_hex digits ≡ thirty_two)
    × All IsHexDigit t.hash
    × (from_hex t.hash ≡ t.raw)
generate_digits_example =
    generate_digits prefix_access thirty_two start refl refl (all_bytes 32 17 (omega arith))
      prefix_bytes same_bytes

abbrev access : OpaqueToken
access = record {
  raw = prefix_access ++ hex_encode thirty_two;
  hash = hash_token (prefix_access ++ hex_encode thirty_two);
}

abbrev refresher : OpaqueToken
refresher = record {
  raw = prefix_refresh ++ hex_encode thirty_two;
  hash = hash_token (prefix_refresh ++ hex_encode thirty_two);
}

access-ne-refresh_example : access.raw ≢ refresher.raw
unfolding evaluated
access-ne-refresh_example = access-ne-refresh start start access refresher refl refl

repeat-IsByte : (n b : ℕ) → IsByte b → All IsByte (repeat n b)
repeat-IsByte zero b h = tt
repeat-IsByte (suc n) b h = (h, repeat-IsByte n b h)

bytes : All IsByte thirty_two
bytes = repeat-IsByte 32 17 (omega arith)

generate-injective_example : thirty_two ≡ thirty_two
unfolding evaluated
generate-injective_example =
    generate-injective prefix_access thirty_two thirty_two start start access access refl refl bytes
      bytes refl refl refl

-- A rotation of 0x2.
abbrev rotation : SessionRefreshInput
rotation = record {
  old_session_id = lit "0x2";
  new_access_token_hash = hash_token (lit "atk_5");
  new_refresh_token_hash = hash_token (lit "rtk_5");
  new_refresh_jti = lit "jti_5";
  permissions = [];
  delegated_permissions = [];
  policy_groups = [];
  permission_version = 0;
  new_expires_at = 900 * second;
  new_refresh_expires_at = 2000 * second;
  user_agent = [];
  ip_address = [];
}

unfoldable rotated_session : Session
rotated_session = session_at memory_laws (rotate_tokens rotation start).1.db (next_uid two_users)

rotate_tokens-IsRotated_example :
    (old : SessionNode) × IsOld memory_laws (lit "0x2") start old
    × IsRotated memory_laws old rotation start (rotate_tokens rotation start).1.db rotated_session
unfolding evaluated rotated_session
rotate_tokens-IsRotated_example =
    rotate_tokens-IsRotated memory_laws rotation start rotated_session refl
