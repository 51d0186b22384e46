-- ===== src/Handler/Grpc/Laws.antt =====
-- internal/handler/grpc/server.go and internal/handler/http/handler.go over the user service and the
-- user repository: what an update answers, and who may change a user.
use elysium.Prelude.{
  List, ◌≡◌, ◌≢◌, refl, sym, ◌∙◌, Option, some, [], ◌∷◌, Text, ◌==◌, Bool-cases, inl, inr,
}
use elysium.Errors.{Result, ok, err, errors_is}
use elysium.Base64.{Base64}
use elysium.Dgraph.{Dgraph}
use elysium.Dgraph.Laws.{IsDgraph}
use elysium.Dgraph.Upserts.{Upserts}
use elysium.World.{World, rewrap}
use elysium.Domain.Session.{Principal}
use elysium.Domain.User.{User, UpdateUserInput}
use elysium.Domain.Zookie.{Zookie}
use elysium.Token.{Digest}
use elysium.Service.Outside.{Crypto, UserRepository}
use elysium.Service.Auth as Auth
use elysium.Service.Auth.Laws.{other_user_refused}
use elysium.Repository.User.{user_repository, update}
use elysium.Repository.User.Writes.{read_user}
use elysium.Repository.User.Wire.{given}
use elysium.Repository.User.Updates.{stored_field, updated_user, answered_user, update-IsUpdated}
use elysium.Handler.Status.{handle_service_error, domain_to_grpc_error}
use elysium.Handler.Middleware.{Request, write_error}
use elysium.Handler.Http.Users as Http
use elysium.Handler.Grpc.{Caller, caller, unauthenticated, principal_from_ctx}
use elysium.Handler.Grpc.Methods.{
  replied, status, rpc_error, domain_user_to_proto, WriteUserResponse, UpdateUserRequest, non_empty,
  update_input, write_reply, delete_reply, with_caller, called, update_user, delete_user,
}

given-non_empty : (t old : Text) → given (non_empty t) old ≡ stored_field (non_empty t) old
unfolding non_empty stored_field
given-non_empty [] old = refl
given-non_empty (c ∷ cs) old = refl

module _ {Db : Type 0} ⦃dg : Dgraph Db⦄ ⦃up : Upserts Db⦄ ⦃b : Base64⦄ (laws : IsDgraph dg)
    (crypto : Crypto Db) where
  -- The response shows a user as the database holds it.
  abbrev pub Shows : WriteUserResponse → Db → Type 0
  Shows resp db =
      (uid : Text) × (resp.user ≡ domain_user_to_proto (read_user uid (laws.read db uid)))

  updated-Shows :
      (req : UpdateUserRequest) (w : World Db) (u : User) (z : Zookie)
      → (update req.id (update_input req) w).0 ≡ ok (u, z)
      → (uid : Text) × (domain_user_to_proto u
          ≡ domain_user_to_proto
              (read_user uid (laws.read (update req.id (update_input req) w).1.db uid)))
  unfolding update_input updated_user answered_user domain_user_to_proto
  updated-Shows req w u z h =
      let it = update-IsUpdated laws req.id (update_input req) w u z h in
      (
        it.uid,
        rw
            (
              it.stored,
              it.answered,
              given-non_empty req.first_name _,
              given-non_empty req.last_name _,
              given-non_empty req.nickname _,
              given-non_empty req.country _,
            )
            refl,
      )

  service-Shows :
      (id : Text) (req : UpdateUserRequest) (w : World Db) (resp : WriteUserResponse)
      → write_reply (Auth.update_user crypto user_repository id req.id (update_input req) w).0
        ≡ replied resp
      → Shows resp (Auth.update_user crypto user_repository id req.id (update_input req) w).1.db
  unfolding Auth.update_user user_repository write_reply rpc_error
  service-Shows id req w resp h = elim (Bool-cases (id == req.id)) [
    | inr e ↦ cc (rw e at h)
    | inl e ↦ rw e (answered (update req.id (update_input req) w).0 refl (rw e at h))
  ]
    where
      answered :
          (r : Result (User × Zookie))
          → (update req.id (update_input req) w).0 ≡ r
          → write_reply (rewrap "update user" (update req.id (update_input req) w).0) ≡ replied resp
          → Shows resp (update req.id (update_input req) w).1.db
      answered (err e) r h = cc (rw r at h)
      answered (ok (u, z)) r h =
          let (uid, same) = updated-Shows req w u z r in
          let sole : domain_user_to_proto u ≡ resp.user = cc (rw r at h) in (uid, sym sole ∙ same)

  module _ ⦃d : Digest⦄ where
    -- If the gRPC method `UpdateUser` replies with a user, the database holds that user afterwards, as it
    -- is shown.
    pub update_user-Shows :
        (authorization : Option (List Text)) (req : UpdateUserRequest) (w : World Db)
        (resp : WriteUserResponse)
        → (update_user crypto user_repository authorization req w).0 ≡ ok (replied resp)
        → Shows resp (update_user crypto user_repository authorization req w).1.db
    unfolding update_user called with_caller
    update_user-Shows authorization req w resp h =
        answered (principal_from_ctx authorization w).0 refl h
      where
        answered :
            (c : Caller)
            → (principal_from_ctx authorization w).0 ≡ c
            → (update_user crypto user_repository authorization req w).0 ≡ ok (replied resp)
            → Shows resp (update_user crypto user_repository authorization req w).1.db
        answered (caller p) e h = rw e (
            service-Shows p.user_id req (principal_from_ctx authorization w).1 resp
              (cc (rw e at h)))
        answered (unauthenticated message) e h = cc (rw e at h)

module _ {Db : Type 0} ⦃dg : Dgraph Db⦄ ⦃d : Digest⦄ (crypto : Crypto Db)
    (repo : UserRepository Db) where
  -- Both transports refuse a caller who would change or delete another user, with 403 or with
  -- PermissionDenied, and apart from the check of the gRPC caller they do nothing.
  pub other_user_forbidden :
      (p : Principal) (r : Request) (input : UpdateUserInput) (authorization : Option (List Text))
      (req : UpdateUserRequest) (w : World Db)
      → p.user_id ≢ req.id
      → r.path_value ≡ req.id
      → (principal_from_ctx authorization w).0 ≡ caller p
      → (Http.update_as crypto repo r input (some p) w ≡ (ok (write_error 403 "forbidden"), w))
        × (Http.delete_as crypto repo r (some p) w ≡ (ok (write_error 403 "forbidden"), w))
        × (update_user crypto repo authorization req w
            ≡ (ok (status 7 "forbidden"), (principal_from_ctx authorization w).1))
        × (delete_user crypto repo authorization req.id w
            ≡ (ok (status 7 "forbidden"), (principal_from_ctx authorization w).1))
  unfolding Http.update_as Http.delete_as Http.written_answer Http.message_answer
      handle_service_error errors_is update_user delete_user called with_caller write_reply
      delete_reply rpc_error domain_to_grpc_error
  other_user_forbidden p r input authorization req w ne path known =
      let v = (principal_from_ctx authorization w).1 in
      let here = other_user_refused crypto repo p.user_id req.id input w ne in
      let there = other_user_refused crypto repo p.user_id req.id (update_input req) v ne in
      (
        rw (path, here.0) refl,
        rw (path, here.1) refl,
        rw (known, there.0) refl,
        rw (known, there.1) refl,
      )
