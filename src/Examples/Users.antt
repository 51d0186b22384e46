-- ===== src/Examples/Users.antt =====
-- Examples on the user repository and the service account repository, over the database in memory.
use mathlib.Core.Bool.{false≢true}
use elysium.Prelude.{
  ◌⊎◌, ℕ, ◌+◌, ◌-◌, ◌*◌, ◌≡◌, ◌≢◌, refl, ap, true, none, some, ◌≤◌, List, [], ◌∷◌, Text, lit, ◌==◌,
  eq_refl, mem_text, All, arith, ◌<◌,
}
use elysium.Errors.{ok, err, sentinel, outside, wrap, invalid_credentials}
use elysium.Base64.{Base64, IsBase64}
use elysium.Dgraph.{uid_of}
use elysium.Dgraph.Memory.{Memory, empty, memory, memory_laws}
use elysium.Dgraph.Memory.Conditional.{conditional, conditional_laws}
use elysium.World.{World, return}
use elysium.Domain.Session.{second}
use elysium.Domain.User.{
  User, CreateUserInput, UpdateUserInput, ListFilter, pos, negsuc, sanitised, validation,
  normal_page, normal_page_size,
}
use elysium.Service.Outside.{Crypto}
use elysium.Service.Auth.{new_user, register, register_valid, login}
use elysium.Service.Auth.Registration.{login-register}
use elysium.Service.Auth.Uniqueness.{UserCall, registers, updates, IsApart, run, run-UniqueEmails}
use elysium.World.{time_now}
use elysium.Dgraph.Memory.{run_query, read, written}
use elysium.Dgraph.Memory.Conditional.{run_upsert, run_page, writes}
use elysium.Dgraph.{uid, about, each_text}
use elysium.Dgraph.Json.{marshal}
use elysium.Repository.User.Wire.{
  user_quads, created_user, user_entries, user_query, patched, unmarshal_user, to_domain,
  list_query, page_count, to_int64,
}
use elysium.Repository.User.{
  user_repository, create, upsert_now, create_absences, answer_created, zookie_from_txn, update,
  update_first, list, fetch_page,
}
use elysium.World.{begin, txn_fetch, txn_mutate, txn_commit}
use elysium.Repository.User.Updates.{IsUpdated, update-IsUpdated}
use elysium.Repository.User.Listing.{IsShown, list_sound}
use elysium.Domain.Zookie.{strong_read, little_endian, new_zookie}
use elysium.Repository.Session.Wire.{bool_field, parse_rfc3339, text_field, time_field}
use elysium.Dgraph.Laws.{fits_filter, listed, put, select, set_all, target}
use elysium.Domain.ServiceAccount.{ServiceAccount, ServiceLoginInput, validate_login}
use elysium.Repository.ServiceAccount.{
  service_account_repository, create_service_account, get_by_client_id, deactivate,
}
use elysium.Repository.ServiceAccount.Laws.{requests_refused, service_login_refused}
use elysium.Service.ServiceAuth as ServiceAuth
use elysium.Repository.User.Writes.{stored_user}
use elysium.Repository.User.Unique.{UniqueEmails}
use elysium.Examples.{start, evaluated}

unfoldable pub encode_all : List ℕ → Text
encode_all [] = []
encode_all (n ∷ ns) = (n + 100) ∷ encode_all ns

unfoldable pub decode_all : Text → List ℕ
decode_all [] = []
decode_all (c ∷ cs) = (c - 100) ∷ decode_all cs

-- A stand-in for base64.
instance abbrev pub codec : Base64
codec = record {
  std_encode = encode_all;
  std_decode = λ t. some (decode_all t);
  url_encode = encode_all;
  raw_url_encode = encode_all;
  raw_url_decode = λ t. some (decode_all t);
}

pub encode_round : (ns : List ℕ) → decode_all (encode_all ns) ≡ ns
unfolding encode_all decode_all
encode_round [] = refl
encode_round (n ∷ ns) = ground (arith, encode_round ns)

encode_large : (k : ℕ) (ns : List ℕ) → k < 100 → All (λ c. c ≢ k) (encode_all ns)
unfolding encode_all
encode_large k [] h = tt
encode_large k (n ∷ ns) h = ((λ e. absurd (omega (arith, e))), encode_large k ns h)

pub codec-IsBase64 : IsBase64 codec
codec-IsBase64 = record {
  std_round = λ bs. ap some (encode_round bs);
  raw_url_round = λ bs. ap some (encode_round bs);
  std_no_colon = λ bs. encode_large b':' bs (omega arith);
  raw_url_no_dot = λ bs. encode_large b'.' bs (omega arith);
}

-- A stand-in for bcrypt, which hashes a password to itself.
unfoldable pub crypto : Crypto Memory
unfolding ◌==◌
crypto = record {
  generate = λ p cost. return p;
  compare = λ hash p. hash == p;
  new_uuid = return (lit "1");
}

comparable :
    (p : Text) (c : ℕ) (v : World Memory) (hash : Text)
    → (crypto.generate p c v).0 ≡ ok hash
    → crypto.compare hash p ≡ true
unfolding crypto
comparable p c v hash h = let same : p ≡ hash = cc in rw same (eq_refl hash)

abbrev fresh : World Memory
fresh = record start { db = empty }

abbrev form : CreateUserInput
form = record {
  first_name = lit " Ann";
  last_name = lit "Lee ";
  nickname = lit "ann";
  password = lit "secret12";
  email = lit "ANN@example.org ";
  country = lit "KE";
}

unfoldable registered : User
unfolding sanitised new_user
registered = new_user (sanitised form) (lit "secret12") (lit "1") (10 * second)

login-register_example :
    (login crypto user_repository
      (record { email = form.email; password = form.password })
      (register crypto user_repository 12 form fresh).1).0
    ≡ ok (stored_user registered)
unfolding register register_valid user_repository crypto validation registered time_now create
    upsert_now run_upsert create_absences answer_created user_quads created_user zookie_from_txn
    run_query
login-register_example =
    login-register memory_laws conditional_laws crypto form 12 registered _ fresh _ comparable refl
      refl

-- Opening this opens what an operation on users computes.
unfoldable pub user_operations : Unit {0}
unfolding evaluated update begin txn_fetch update_first user_query about marshal user_entries
    created_user mem_text ◌==◌ fits_filter time_now listed put select set_all target each_text
    uid_of little_endian new_zookie bool_field parse_rfc3339 text_field time_field patched to_domain
    unmarshal_user user_quads zookie_from_txn txn_commit txn_mutate list fetch_page run_page
    list_query normal_page page_count normal_page_size to_int64 writes
user_operations = tt

no_emails : UniqueEmails memory_laws empty
unfolding memory_laws read
no_emails u v t h k = absurd (false≢true h)

crypto-IsApart : IsApart crypto
unfolding crypto
crypto-IsApart = record { generate_apart = λ p cost w. refl; uuid_apart = λ w. refl }

abbrev rename : UpdateUserInput
rename = record {
  first_name = some (lit "Bea");
  last_name = some [];
  nickname = none;
  country = none;
}

abbrev calls : List UserCall
calls = registers 12 form ∷ registers 12 form ∷ updates (lit "1") (lit "1") rename ∷ []

run-UniqueEmails_example : UniqueEmails memory_laws (run crypto calls fresh).db
run-UniqueEmails_example =
    run-UniqueEmails memory_laws conditional_laws crypto crypto-IsApart calls fresh no_emails

abbrev pub ann : User
ann = record {
  id = lit "1";
  first_name = lit "Ann";
  last_name = lit "Lee";
  nickname = lit "ann";
  password_hash = lit "secret12";
  email = lit "ann@example.org";
  country = lit "KE";
  active = true;
  created_at = 0;
  updated_at = 0;
}

abbrev one_user : World Memory
one_user = record start {
  db = written [] (about (uid (lit "0x1")) (marshal (user_entries (created_user ann)))) empty;
}

-- The last name that was given as empty is empty in the answer only.
abbrev answer : User
answer = record ann {
  first_name = lit "Bea";
  last_name = [];
  password_hash = [];
  updated_at = 10 * second;
}

update-IsUpdated_example :
    IsUpdated memory_laws
      (lit "1")
      rename
      (10 * second)
      one_user.db
      (update (lit "1") rename one_user).1.db
      answer
unfolding user_operations
update-IsUpdated_example = update-IsUpdated memory_laws (lit "1") rename one_user answer _ refl

abbrev kenyans : ListFilter
kenyans = record { country = lit "KE"; page = negsuc 3; page_size = pos 500 }

list_sound_example :
    All (IsShown (lit "KE")) (ann ∷ [])
    × (1 ≤ 100)
    × (◌≡◌ {A = ℕ} 1 1)
    × (1 ≤ 1 * 100)
    × ((◌≡◌ {A = ℕ} 1 1) ⊎ ((1 - 1) * 100 < 1))
unfolding user_operations
list_sound_example =
    list_sound memory_laws conditional_laws kenyans strong_read one_user
      (record { users = record ann { password_hash = [] } ∷ []; total = 1; page = 1; pages = 1 })
      refl

abbrev account : ServiceAccount
account = record {
  id = lit "2";
  client_id = lit "billing";
  name = lit "Billing";
  secret_hash = lit "s3cret";
  actor_type = lit "ADMIN";
  permissions = [];
  active = true;
  created_at = 0;
  updated_at = 0;
}

requests_refused_example :
    (create_service_account account fresh
      ≡ (err (wrap "dgraph: create service account" (outside "dgraph query variables")), fresh))
    × (get_by_client_id (lit "billing") none fresh
        ≡ (err (wrap "dgraph: get service account" (outside "dgraph query variables")), fresh))
    × (deactivate (lit "billing") fresh
        ≡ (err (wrap "dgraph: deactivate lookup" (outside "dgraph query variables")), fresh))
requests_refused_example =
    requests_refused memory_laws conditional_laws account (lit "billing") none fresh

abbrev secret : ServiceLoginInput
secret = record { client_id = lit "billing"; client_secret = lit "s3cret" }

service_login_refused_example :
    ServiceAuth.login crypto service_account_repository secret fresh
    ≡ (err (sentinel invalid_credentials), fresh)
unfolding validate_login
service_login_refused_example =
    service_login_refused memory_laws conditional_laws crypto secret fresh refl
