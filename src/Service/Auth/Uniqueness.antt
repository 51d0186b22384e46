-- ===== src/Service/Auth/Uniqueness.antt =====
-- internal/service/auth.go over internal/repository/dgraph/repository.go: no two users have the same
-- email, after any sequence of calls.
use elysium.Prelude.{ℕ, ◌≡◌, Option, List, [], ◌∷◌, Text, Bool-cases, inl, inr}
use elysium.Errors.{Result, ok, err}
use elysium.Base64.{Base64}
use elysium.Dgraph.{Dgraph, Node, Query}
use elysium.Dgraph.Laws.{IsDgraph}
use elysium.Dgraph.Upserts.{PageQuery, Upserts, IsUpserts}
use elysium.World.{World}
use elysium.World.Keeps.{
  Keeps, keeps_rules, Keeps-bind, Keeps-wrapped, Keeps-time_now, Keeps-fail, Keeps-return, Keeps-if,
  Keeps-attempt, Keeps-fetch,
}
use elysium.Domain.Zookie.{Zookie}
use elysium.Domain.User.{
  CreateUserInput, UpdateUserInput, LoginInput, ListFilter, sanitised, is_acceptable, validate,
  to_lower, User,
}
use elysium.Domain.User.Laws.{to_lower-to_lower}
use elysium.Service.Outside.{Crypto}
use elysium.Service.Auth.{
  checked, new_user, register, register_valid, login, login_found, get_user, update_user,
  delete_user, list_users,
}
use elysium.Repository.User.Unique.{UniqueEmails}
use elysium.Repository.User.Unique.Writes.{
  create-UniqueEmails, update-UniqueEmails, delete_user-UniqueEmails,
}
use elysium.Repository.User.{
  create, user_repository, first_user, query_one, get_by_email, get_by_id, fetch_page, list,
}

-- The operations of `AuthService` that reach the storage.
pub data UserCall : Type 0 where
  registers : ℕ → CreateUserInput → UserCall
  logs_in : LoginInput → UserCall
  gets : Text → Option Zookie → UserCall
  updates : Text → Text → UpdateUserInput → UserCall
  deletes : Text → Text → UserCall
  lists : ListFilter → Option Zookie → UserCall

module _ {Db : Type 0} ⦃dg : Dgraph Db⦄ ⦃up : Upserts Db⦄ ⦃b : Base64⦄ (crypto : Crypto Db) where
  -- The state after a call, whatever it answered.
  unfoldable pub step : UserCall → World Db → World Db
  step (registers cost input) w = (register crypto user_repository cost input w).1
  step (logs_in input) w = (login crypto user_repository input w).1
  step (gets id zookie) w = (get_user crypto user_repository id zookie w).1
  step (updates caller target input) w =
      (update_user crypto user_repository caller target input w).1
  step (deletes caller target) w = (delete_user crypto user_repository caller target w).1
  step (lists filter zookie) w = (list_users crypto user_repository filter zookie w).1

  unfoldable pub run : List UserCall → World Db → World Db
  run [] w = w
  run (c ∷ cs) w = run cs (step c w)

-- bcrypt and uuid leave the database alone.
pub record IsApart {Db : Type 0} (crypto : Crypto Db) : Type 0 where
  pub generate_apart : (p : Text) (cost : ℕ) (w : World Db) → (crypto.generate p cost w).1.db ≡ w.db
  pub uuid_apart : (w : World Db) → (crypto.new_uuid w).1.db ≡ w.db

module _ {Db : Type 0} ⦃dg : Dgraph Db⦄ ⦃up : Upserts Db⦄ ⦃b : Base64⦄ (laws : IsDgraph dg)
    (ups : IsUpserts laws up) (crypto : Crypto Db) (apart : IsApart crypto) where
  generate-Keeps : (p : Text) (cost : ℕ) → Keeps (UniqueEmails laws) (crypto.generate p cost)
  generate-Keeps p cost = record { at = λ w h. rw (apart.generate_apart p cost w) h }

  new_uuid-Keeps : Keeps (UniqueEmails laws) crypto.new_uuid
  new_uuid-Keeps = record { at = λ w h. rw (apart.uuid_apart w) h }

  create-Keeps : (u : User) → to_lower u.email ≡ u.email → Keeps (UniqueEmails laws) (create u)
  create-Keeps u low = record { at = λ w h. create-UniqueEmails laws ups u w low h }

  register_valid-Keeps :
      (cost : ℕ) (i : CreateUserInput)
      → to_lower i.email ≡ i.email
      → Keeps (UniqueEmails laws) (register_valid crypto user_repository cost i)
  unfolding register_valid user_repository new_user
  register_valid-Keeps cost i low =
      Keeps-bind _ _ (Keeps-wrapped _ _ (generate-Keeps i.password cost)) λ hash.
        Keeps-bind _ _ Keeps-time_now λ now. Keeps-bind _ _ new_uuid-Keeps λ id.
          Keeps-bind _ _ (Keeps-wrapped _ _ (create-Keeps (new_user i hash id now) low))
            λ z. Keeps-return _

  register-Keeps :
      (cost : ℕ) (input : CreateUserInput)
      → Keeps (UniqueEmails laws) (register crypto user_repository cost input)
  unfolding register validate sanitised
  register-Keeps cost input = elim (Bool-cases (is_acceptable (sanitised input))) [
    | inl e ↦ record {
      at = λ w h. rw e ((register_valid-Keeps cost (sanitised input) (to_lower-to_lower _)).at w h);
    }
    | inr e ↦ record { at = λ w h. rw e h }
  ]

  first_user-Keeps : (ns : List Node) → Keeps (UniqueEmails laws) (first_user ns)
  unfolding first_user
  first_user-Keeps [] = Keeps-fail _
  first_user-Keeps (n ∷ ns) = Keeps-return _

  query_one-Keeps : (q : Query) → Keeps (UniqueEmails laws) (query_one q)
  unfolding query_one
  query_one-Keeps q = Keeps-bind _ _ (Keeps-fetch _ q) first_user-Keeps

  login_found-Keeps :
      (i : LoginInput) (r : Result User)
      → Keeps (UniqueEmails laws) (login_found crypto user_repository i r)
  unfolding login_found
  login_found-Keeps i (err e) = Keeps-fail _
  login_found-Keeps i (ok user) = search keeps_rules

  checked-Keeps : (r : Result LoginInput) → Keeps (UniqueEmails laws) (checked r)
  checked-Keeps (ok i) = Keeps-return _
  checked-Keeps (err e) = Keeps-fail _

  login-Keeps :
      (input : LoginInput) → Keeps (UniqueEmails laws) (login crypto user_repository input)
  unfolding login user_repository get_by_email
  login-Keeps input =
      Keeps-bind _ _ (Keeps-wrapped _ _ (checked-Keeps _))
        λ i. Keeps-bind _ _ (Keeps-attempt _ (query_one-Keeps _)) (login_found-Keeps i)

  get_user-Keeps :
      (id : Text) (zookie : Option Zookie)
      → Keeps (UniqueEmails laws) (get_user crypto user_repository id zookie)
  unfolding get_user user_repository get_by_id
  get_user-Keeps id zookie =
      Keeps-bind _ _ (Keeps-wrapped _ _ (query_one-Keeps _))
        λ user. Keeps-if _ _ _ (Keeps-fail _) (Keeps-return _)

  fetch_page-Keeps : (q : PageQuery) → Keeps (UniqueEmails laws) (fetch_page q)
  unfolding fetch_page
  fetch_page-Keeps q = record { at = λ w h. h }

  list_users-Keeps :
      (filter : ListFilter) (zookie : Option Zookie)
      → Keeps (UniqueEmails laws) (list_users crypto user_repository filter zookie)
  unfolding list_users user_repository list
  list_users-Keeps filter zookie =
      Keeps-wrapped _ _ (Keeps-bind _ _ (fetch_page-Keeps _) λ found. Keeps-return _)

  update_user-Keeps :
      (caller target : Text) (input : UpdateUserInput)
      → Keeps (UniqueEmails laws) (update_user crypto user_repository caller target input)
  unfolding update_user user_repository
  update_user-Keeps caller target input =
      Keeps-if _ _ _ (Keeps-fail _)
        (Keeps-wrapped _ _ (record { at = update-UniqueEmails laws ups target input }))

  delete_user-Keeps :
      (caller target : Text)
      → Keeps (UniqueEmails laws) (delete_user crypto user_repository caller target)
  unfolding delete_user user_repository
  delete_user-Keeps caller target =
      Keeps-if _ _ _ (Keeps-fail _)
        (Keeps-wrapped _ _ (record { at = delete_user-UniqueEmails laws ups target }))

  step-UniqueEmails :
      (call : UserCall) (w : World Db)
      → UniqueEmails laws w.db
      → UniqueEmails laws (step crypto call w).db
  unfolding step
  step-UniqueEmails (registers cost input) w h = (register-Keeps cost input).at w h
  step-UniqueEmails (logs_in input) w h = (login-Keeps input).at w h
  step-UniqueEmails (gets id zookie) w h = (get_user-Keeps id zookie).at w h
  step-UniqueEmails (updates caller target input) w h =
      (update_user-Keeps caller target input).at w h
  step-UniqueEmails (deletes caller target) w h = (delete_user-Keeps caller target).at w h
  step-UniqueEmails (lists filter zookie) w h = (list_users-Keeps filter zookie).at w h

  -- If no two nodes hold the same email, and bcrypt and uuid leave the database alone, then none do
  -- after any sequence of calls of the user service, failed ones included.
  pub run-UniqueEmails :
      (calls : List UserCall) (w : World Db)
      → UniqueEmails laws w.db
      → UniqueEmails laws (run crypto calls w).db
  unfolding run
  run-UniqueEmails [] w h = h
  run-UniqueEmails (c ∷ cs) w h = run-UniqueEmails cs (step crypto c w) (step-UniqueEmails c w h)
