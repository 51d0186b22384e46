-- ===== src/Service/Auth/Registration.antt =====
-- internal/service/auth.go over internal/repository/dgraph/repository.go: a registration, and a login
-- with the same email and password.
use elysium.Prelude.{
  String, ℕ, ◌≡◌, refl, sym, ap, ◌∙◌, true, false, not, Text, arith, Bool-cases, inl, inr, is_empty,
  [], ◌∷◌, length, ltb, List, subst,
}
use elysium.Errors.{ok}
use elysium.Base64.{Base64}
use elysium.Dgraph.{found, Dgraph, Node}
use elysium.Dgraph.Laws.{IsDgraph}
use elysium.Dgraph.Upserts.{Upserts, IsUpserts}
use elysium.World.{World, Action, ◌>>=◌, return, wrapped, time_now}
use elysium.World.Success.{bind-eq-ok, rewrap-eq-ok}
use elysium.Domain.Zookie.{Zookie, strong_read}
use elysium.Domain.User.{
  User, CreateUserInput, validate, validate_login, sanitised, is_acceptable, email_matches,
  to_lower,
}
use elysium.Domain.User.Laws.{to_lower-to_lower}
use elysium.Service.Outside.{Crypto, UserRepository}
use elysium.Service.Auth.{new_user, register, register_valid, login, login_found}
use elysium.Repository.User.Wire.{user_query, user_fields}
use elysium.Repository.User.Writes.{stored_user}
use elysium.Repository.User.Creation.{IsStored, create-IsStored}
use elysium.Repository.User.Lookup.{get_by_email-IsStored}
use elysium.Repository.User.{user_repository}

module _ {Db : Type 0} (crypto : Crypto Db) (repo : UserRepository Db) where
  -- The user is the one of the input, with a hash of its password, and the repository stored it.
  pub record IsRegistered (cost : ℕ) (i : CreateUserInput) (u : User) (z : Zookie)
      (after : World Db) : Type 0 where
    pub hash : Text
    pub id : Text
    pub now : ℕ
    pub start : World Db
    pub before : World Db
    pub hashed : (crypto.generate i.password cost start).0 ≡ ok hash
    pub made : u ≡ new_user i hash id now
    pub stored : (repo.create u before).0 ≡ ok z
    pub left : after ≡ (repo.create u before).1

  abbrev store_user : User → Action Db (User × Zookie)
  store_user n = do zookie ← wrapped "register" (repo.create n); return (n, zookie)

  abbrev after_hash : CreateUserInput → Text → Action Db (User × Zookie)
  after_hash i hash = do now ← time_now; id ← crypto.new_uuid; store_user (new_user i hash id now)

  stored-IsRegistered :
      (cost : ℕ) (i : CreateUserInput) (hash id : Text) (now : ℕ) (u : User) (z : Zookie)
      (start v : World Db)
      → (crypto.generate i.password cost start).0 ≡ ok hash
      → (store_user (new_user i hash id now) v).0 ≡ ok (u, z)
      → IsRegistered cost i u z (store_user (new_user i hash id now) v).1
  stored-IsRegistered cost i hash id now u z start v g h =
      let n = new_user i hash id now in
      let (z', e, r) =
        bind-eq-ok (wrapped "register" (repo.create n)) (λ zookie. return (n, zookie)) v (u, z) h in
      let same : ok (n, z') ≡ ok (u, z) = sym (ap (λ p. p.0) r) ∙ h in
      let user : u ≡ n = cc same in
      let zook : z' ≡ z = cc same in
      record {
        hash = hash;
        id = id;
        now = now;
        start = start;
        before = v;
        hashed = g;
        made = user;
        stored = rw user (rewrap-eq-ok "register" (repo.create n v).0 z' e ∙ ap ok zook);
        left = rw user (ap (λ p. p.1) r);
      }

  hashed-IsRegistered :
      (cost : ℕ) (i : CreateUserInput) (hash : Text) (u : User) (z : Zookie) (start v : World Db)
      → (crypto.generate i.password cost start).0 ≡ ok hash
      → (after_hash i hash v).0 ≡ ok (u, z)
      → IsRegistered cost i u z (after_hash i hash v).1
  unfolding time_now
  hashed-IsRegistered cost i hash u z start v g h =
      let v' = (time_now v).1 in
      let now = v.clock 0 in
      let (id, e, r) =
        bind-eq-ok crypto.new_uuid (λ id. store_user (new_user i hash id now)) v' (u, z) h in
      subst (λ p. IsRegistered cost i u z p.1) (sym r)
        (stored-IsRegistered cost i hash id now u z start (crypto.new_uuid v').1 g
          (sym (ap (λ p. p.0) r) ∙ h))

  register_valid-IsRegistered :
      (cost : ℕ) (i : CreateUserInput) (u : User) (z : Zookie) (w : World Db)
      → (register_valid crypto repo cost i w).0 ≡ ok (u, z)
      → IsRegistered cost i u z (register_valid crypto repo cost i w).1
  unfolding register_valid
  register_valid-IsRegistered cost i u z w h =
      let step : String = "register: hash password" in
      let (hash, e, r) =
        bind-eq-ok (wrapped step (crypto.generate i.password cost)) (after_hash i) w (u, z) h in
      subst (λ p. IsRegistered cost i u z p.1) (sym r)
        (hashed-IsRegistered cost i hash u z w (crypto.generate i.password cost w).1
          (rewrap-eq-ok step (crypto.generate i.password cost w).0 hash e)
          (sym (ap (λ p. p.0) r) ∙ h))

  -- If `Register` succeeds, its input validates, and the repository stored the user of the sanitised
  -- input with a hash of its password.
  pub register-IsRegistered :
      (cost : ℕ) (input : CreateUserInput) (u : User) (z : Zookie) (w : World Db)
      → (register crypto repo cost input w).0 ≡ ok (u, z)
      → (is_acceptable (sanitised input) ≡ true)
        × IsRegistered cost (sanitised input) u z (register crypto repo cost input w).1
  unfolding register validate
  register-IsRegistered cost input u z w h = elim (Bool-cases (is_acceptable (sanitised input))) [
    | inl e ↦ (e, rw e (register_valid-IsRegistered cost (sanitised input) u z w (rw e at h)))
    | inr e ↦ cc (rw e at h)
  ]

nonempty : (e : Text) → email_matches e ≡ true → is_empty e ≡ false
unfolding email_matches
nonempty [] m = cc
nonempty (c ∷ cs) m = refl

-- The email of an accepted input is in lower case and not empty, and the password is not empty.
accepted_email :
    (input : CreateUserInput)
    → is_acceptable (sanitised input) ≡ true
    → (validate_login (record { email = input.email; password = input.password })
        ≡ ok (record { email = (sanitised input).email; password = input.password }))
      × (to_lower (sanitised input).email ≡ (sanitised input).email)
      × (is_empty (sanitised input).email ≡ false)
unfolding sanitised is_acceptable validate_login
accepted_email input h =
    (ground (arith, full input.password), to_lower-to_lower _, nonempty (to_lower _) (ground arith))
  where
    full : (p : Text) → not (ltb (length p) 8) ≡ true → is_empty p ≡ false
    full [] e = cc
    full (c ∷ cs) e = refl

module _ {Db : Type 0} ⦃dg : Dgraph Db⦄ ⦃up : Upserts Db⦄ ⦃b : Base64⦄ (laws : IsDgraph dg)
    (ups : IsUpserts laws up) (crypto : Crypto Db) where
  found_login :
      (input : CreateUserInput) (cost : ℕ) (u : User) (z : Zookie) (w : World Db) (ns : List Node)
      → ((p : Text) (c : ℕ) (v : World Db) (hash : Text)
          → (crypto.generate p c v).0 ≡ ok hash
          → crypto.compare hash p ≡ true)
      → is_acceptable (sanitised input) ≡ true
      → IsRegistered crypto user_repository cost (sanitised input) u z w
      → dg.query (user_query "user.email" u.email user_fields false) w.db ≡ found ns
      → (login crypto user_repository
          (record { email = input.email; password = input.password })
          w).0
        ≡ ok (stored_user u)
  unfolding login login_found user_repository new_user stored_user sanitised
  found_login input cost u z w ns comparable a it e =
      let i = sanitised input in
      let (valid, low, full) = accepted_email input a in
      let mail : u.email ≡ i.email = ap (λ n. n.email) it.made in
      let st = create-IsStored laws ups u it.before z it.stored in
      let st' : IsStored laws u it.before.db w.db =
        subst (λ v. IsStored laws u it.before.db v.db) (sym it.left) st in
      let got =
        get_by_email-IsStored laws u it.before.db w st' ns strong_read (rw mail low) (rw mail full)
          e in
      let right = comparable i.password cost it.start it.hash it.hashed in
      rw
        (
          valid,
          ← mail,
          got,
          ap (λ (n : User). n.password_hash) it.made,
          right,
          ap (λ (n : User). n.active) it.made,
        )
        refl

  -- A user who registers can log in with the same email and password, if Dgraph answers the lookup
  -- and a hash that bcrypt generated matches its password.
  pub login-register :
      (input : CreateUserInput) (cost : ℕ) (u : User) (z : Zookie) (w : World Db) (ns : List Node)
      → ((p : Text) (c : ℕ) (v : World Db) (hash : Text)
          → (crypto.generate p c v).0 ≡ ok hash
          → crypto.compare hash p ≡ true)
      → (register crypto user_repository cost input w).0 ≡ ok (u, z)
      → dg.query
          (user_query "user.email" u.email user_fields false)
          (register crypto user_repository cost input w).1.db
        ≡ found ns
      → (login crypto user_repository
          (record { email = input.email; password = input.password })
          (register crypto user_repository cost input w).1).0
        ≡ ok (stored_user u)
  login-register input cost u z w ns comparable h e =
      let (a, it) = register-IsRegistered crypto user_repository cost input u z w h in
      found_login input cost u z (register crypto user_repository cost input w).1 ns comparable a it
        e
