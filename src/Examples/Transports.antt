-- ===== src/Examples/Transports.antt =====
-- Examples on the transports over the user service, for a caller with an open session.
use elysium.Prelude.{
  true, trim_prefix, ℕ, zero, ◌≡◌, ◌≢◌, refl, Option, some, none, List, [], ◌∷◌, Text, lit, arith,
  ap,
}
use elysium.Errors.{ok}
use elysium.Dgraph.{uid, about}
use elysium.Dgraph.Json.{marshal}
use elysium.Dgraph.Memory.{Memory, written, memory, memory_laws}
use elysium.Dgraph.Memory.Conditional.{conditional}
use elysium.World.{World}
use elysium.Domain.Session.{Principal}
use elysium.Domain.User.{UpdateUserInput}
use elysium.Service.Auth as Auth
use elysium.Service.Session.{session_to_principal}
use elysium.Repository.User.{user_repository}
use elysium.Repository.User.Wire.{user_entries, created_user}
use elysium.Handler.Middleware.{Request, write_error}
use elysium.Handler.Http.Users as Http
use elysium.Handler.Grpc.{caller_of, principal_from_ctx}
use elysium.Handler.Grpc.Methods.{
  called, with_caller, write_reply, update_input, non_empty, domain_user_to_proto,
  WriteUserResponse, UpdateUserRequest, status, update_user, delete_user,
}
use elysium.Handler.Grpc.Laws.{Shows, update_user-Shows, other_user_forbidden}
use elysium.Examples.{digest, start, two_users, second_session, evaluated}
use elysium.Examples.Users.{encode_all, codec, crypto, ann, user_operations}

-- A session of ann is open, and her account is stored.
abbrev stored : World Memory
stored = record start {
  db =
      written []
        (about (uid (lit "0x9"))
          (marshal (user_entries (created_user (record ann { id = lit "ann" })))))
        two_users;
}

abbrev bearer : Option (List Text)
bearer = some (lit "Bearer atk_2" ∷ [])

abbrev rename : UpdateUserRequest
rename = record {
  id = lit "ann";
  first_name = lit "Bea";
  last_name = [];
  nickname = [];
  country = [];
}

abbrev response : WriteUserResponse
response = record {
  user = record {
    id = lit "ann";
    first_name = lit "Bea";
    last_name = lit "Lee";
    nickname = lit "ann";
    email = lit "ann@example.org";
    country = lit "KE";
    active = true;
    created_at = 0;
    updated_at = 11;
  };
  zookie = 106 ∷ 100 ∷ 100 ∷ 100 ∷ 100 ∷ 100 ∷ 100 ∷ 100 ∷ [];
}

update_user-Shows_example :
    Shows memory_laws crypto response (update_user crypto user_repository bearer rename stored).1.db
unfolding user_operations update_user called with_caller principal_from_ctx caller_of trim_prefix
    write_reply Auth.update_user user_repository crypto update_input non_empty encode_all
    domain_user_to_proto
update_user-Shows_example = update_user-Shows memory_laws crypto bearer rename stored response refl

abbrev request : Request
request = record {
  authorization = lit "Bearer atk_2";
  forwarded_for = [];
  remote_addr = [];
  refresh_cookie = none;
  user_agent = [];
  zookie = [];
  path_value = lit "bob";
  principal = none;
}

abbrev other : UpdateUserRequest
other = record rename { id = lit "bob" }

abbrev input : UpdateUserInput
input = record { first_name = none; last_name = none; nickname = none; country = none }

abbrev head : Text → ℕ
head [] = zero
head (c ∷ cs) = c

-- The two user ids differ in their first letters.
ann-ne-bob : second_session.user_id ≢ lit "bob"
unfolding evaluated user_operations
ann-ne-bob e = absurd (omega (arith, ap head e))

abbrev ann_principal : Principal
ann_principal = session_to_principal second_session

other_user_forbidden_example :
    (Http.update_as crypto user_repository request input (some ann_principal) start
      ≡ (ok (write_error 403 "forbidden"), start))
    × (Http.delete_as crypto user_repository request (some ann_principal) start
        ≡ (ok (write_error 403 "forbidden"), start))
    × (update_user crypto user_repository bearer other start
        ≡ (ok (status 7 "forbidden"), (principal_from_ctx bearer start).1))
    × (delete_user crypto user_repository bearer (lit "bob") start
        ≡ (ok (status 7 "forbidden"), (principal_from_ctx bearer start).1))
unfolding evaluated principal_from_ctx caller_of trim_prefix
other_user_forbidden_example =
    other_user_forbidden crypto user_repository ann_principal request input bearer other start
      ann-ne-bob refl refl
