-- ===== src/Repository/ServiceAccount.antt =====
-- internal/repository/dgraph/service_account.go: `ServiceAccountRepo`, over Dgraph. The names of the
-- query variables are those of the source: its requests pass `clientID` for `$clientID`.
pub mod Laws
use elysium.Prelude.{
  ℕ, ◌/◌, String, Bool, false, Option, none, some, List, [], ◌∷◌, ◌++◌, Text, lit, is_empty,
  if◌then◌else◌,
}
use elysium.Errors.{sentinel, outside, wrap, Result, ok, err, user_not_found, user_already_exists}
use elysium.Base64.{Base64}
use elysium.Dgraph.{
  Object, bool, Subject, uid, blank, Quad, Values, Node, set, Dgraph, about, each_text, Uids,
}
use elysium.Dgraph.Json.{Entry, omitempty, omitempty_time, always, marshal}
use elysium.Dgraph.Upserts.{Upserts}
use elysium.World.{World, Action, ◌>>=◌, ◌>>◌, return, fail, time_now, fetch, mutate_now}
use elysium.Domain.Session.{second}
use elysium.Domain.Zookie.{Zookie}
use elysium.Domain.ServiceAccount.{ServiceAccount}
use elysium.Service.Outside.{ServiceAccountRepository}
use elysium.Repository.Session.Wire.{
  text_field, texts_field, bool_field, time_field, parse_rfc3339, format_rfc3339,
}
use elysium.Repository.User.Wire.{user_query, is_best_effort}
use elysium.Repository.User.{upsert_now, zookie_from_txn}

-- `dgraphServiceAccount`, with the JSON key of each field.
pub record DgraphServiceAccount : Type 0 where
  pub uid : Subject
  pub d_type : List Text
  pub id : Text
  pub client_id : Text
  pub name : Text
  pub secret_hash : Text
  pub actor_type : Text
  pub permissions : List Text
  pub active : Bool
  pub created_at : Option ℕ
  pub updated_at : Option ℕ

unfoldable pub unmarshal_account : Text → Values → DgraphServiceAccount
unfolding text_field texts_field bool_field time_field
unmarshal_account u vals = record {
  uid = Subject.uid u;
  d_type = [];
  id = text_field (vals "sa.id");
  client_id = text_field (vals "sa.client_id");
  name = text_field (vals "sa.name");
  secret_hash = text_field (vals "sa.secret_hash");
  actor_type = text_field (vals "sa.actor_type");
  permissions = texts_field (vals "sa.permissions");
  active = bool_field (vals "sa.active");
  created_at = time_field (vals "sa.created_at");
  updated_at = time_field (vals "sa.updated_at");
}

-- `toDomain`.
unfoldable pub account_to_domain : DgraphServiceAccount → ServiceAccount
unfolding parse_rfc3339
account_to_domain d = record {
  id = d.id;
  client_id = d.client_id;
  name = d.name;
  secret_hash = d.secret_hash;
  actor_type = d.actor_type;
  permissions = d.permissions;
  active = d.active;
  created_at = parse_rfc3339 d.created_at;
  updated_at = parse_rfc3339 d.updated_at;
}

unfoldable pub account_entries : DgraphServiceAccount → List (String × Entry)
account_entries d =
    ("sa.id", omitempty d.id)
    ∷ ("sa.client_id", omitempty d.client_id)
    ∷ ("sa.name", omitempty d.name)
    ∷ ("sa.secret_hash", omitempty d.secret_hash)
    ∷ ("sa.actor_type", omitempty d.actor_type)
    ∷ ("sa.active", always (bool d.active))
    ∷ ("sa.created_at", omitempty_time d.created_at)
    ∷ ("sa.updated_at", omitempty_time d.updated_at)
    ∷ []

unfoldable pub account_quads : DgraphServiceAccount → List Quad
unfolding about each_text
account_quads d =
    about d.uid (each_text "dgraph.type" d.d_type)
    ++ about d.uid (each_text "sa.permissions" d.permissions)
    ++ about d.uid (marshal (account_entries d))

-- What `CreateServiceAccount` writes.
unfoldable pub created_account : ServiceAccount → DgraphServiceAccount
created_account sa = record {
  uid = blank "sa";
  d_type = lit "ServiceAccount" ∷ [];
  id = sa.id;
  client_id = sa.client_id;
  name = sa.name;
  secret_hash = sa.secret_hash;
  actor_type = sa.actor_type;
  permissions = sa.permissions;
  active = sa.active;
  created_at = some (sa.created_at / second);
  updated_at = some (sa.updated_at / second);
}

abbrev pub account_fields : List String
account_fields =
    "sa.id" ∷ "sa.client_id" ∷ "sa.name" ∷ "sa.secret_hash" ∷ "sa.actor_type" ∷ "sa.permissions"
    ∷ "sa.active" ∷ "sa.created_at" ∷ "sa.updated_at" ∷ []

-- The map `Vars` of the three requests.
abbrev pub client_vars : Text → List (String × Text)
client_vars client_id = ("clientID", client_id) ∷ []

abbrev pub reply_value : String → Option Text → Result Text
reply_value step none = err (wrap step (outside "dgraph query variables"))
reply_value step (some v) = ok v

module _ {Db : Type 0} ⦃up : Upserts Db⦄ where
  -- The value of `$clientID` in a request whose query declares these variables.
  unfoldable pub client_value : String → List String → Text → Action Db Text
  client_value step declared client_id w =
      (reply_value step (up.value_of declared (client_vars client_id) "$clientID"), w)

module _ {Db : Type 0} ⦃dg : Dgraph Db⦄ ⦃up : Upserts Db⦄ ⦃b : Base64⦄ where
  unfoldable pub account_created : Uids → Action Db Zookie
  account_created uids =
      if is_empty uids then fail (sentinel user_already_exists) else zookie_from_txn

  unfoldable pub create_service_account : ServiceAccount → Action Db Zookie
  create_service_account sa = do
    value ← client_value "dgraph: create service account" [] sa.client_id
    uids ←
        upsert_now "dgraph: create service account" (("sa.client_id", value) ∷ [])
          (account_quads (created_account sa))
    account_created uids

  unfoldable pub first_account : List Node → Action Db ServiceAccount
  first_account [] = fail (sentinel user_not_found)
  first_account (n ∷ ns) = return (account_to_domain (unmarshal_account n.uid n.vals))

  unfoldable pub get_by_client_id : Text → Option Zookie → Action Db ServiceAccount
  get_by_client_id client_id zookie = do
    value ← client_value "dgraph: get service account" ("$clientID" ∷ []) client_id
    ns ←
        fetch "dgraph: get service account"
          (user_query "sa.client_id" value account_fields (is_best_effort zookie))
    first_account ns

  -- `Deactivate` on the accounts that it found.
  unfoldable pub deactivate_first : List Node → Action Db Zookie
  deactivate_first [] = fail (sentinel user_not_found)
  deactivate_first (n ∷ ns) = do
    now ← time_now
    uids ← mutate_now "dgraph: deactivate mutate" (
        set (
          about (uid n.uid)
            (("sa.active", bool false) ∷ ("sa.updated_at", format_rfc3339 now) ∷ [])))
    zookie_from_txn

  unfoldable pub deactivate : Text → Action Db Zookie
  deactivate client_id = do
    value ← client_value "dgraph: deactivate lookup" ("$clientID" ∷ []) client_id
    ns ← fetch "dgraph: deactivate lookup" (user_query "sa.client_id" value [] false)
    deactivate_first ns

  -- `var _ repository.ServiceAccountRepository`: the contract that the service uses.
  unfoldable pub service_account_repository : ServiceAccountRepository Db
  service_account_repository = record {
    create_service_account = create_service_account;
    get_by_client_id = get_by_client_id;
    deactivate = deactivate;
  }
