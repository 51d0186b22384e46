-- ===== src/Repository/User/Wire.antt =====
-- internal/repository/dgraph/repository.go: the wire format of a user, the queries, and the conversion
-- to the domain.
use elysium.Prelude.{
  ℕ, ◌+◌, ◌-◌, ◌*◌, ◌/◌, ◌%◌, ◌^◌, String, Bool, true, false, Option, none, some, List, [], ◌∷◌,
  ◌++◌, Text, lit, ltb, is_empty, if◌then◌else◌,
}
use elysium.Dgraph.{
  bool, Subject, blank, Quad, Values, by_eq, by_type, unfiltered, is_true, unordered, Query, about,
  each_text,
}
use elysium.Dgraph.Json.{Entry, omitempty, omitempty_time, always, marshal}
use elysium.Dgraph.Upserts.{PageQuery}
use elysium.Domain.Session.{second}
use elysium.Domain.Zookie.{Zookie}
use elysium.Domain.User.{User, UpdateUserInput, ℤ, pos, negsuc}
use elysium.Repository.Session.Wire.{text_field, bool_field, time_field, parse_rfc3339}

-- `dgraphUser`, with the JSON key of each field. A time is the seconds of its RFC 3339 text.
pub record DgraphUser : Type 0 where
  pub uid : Subject
  pub d_type : List Text
  pub id : Text
  pub first_name : Text
  pub last_name : Text
  pub nickname : Text
  pub password_hash : Text
  pub email : Text
  pub country : Text
  pub active : Bool
  pub created_at : Option ℕ
  pub updated_at : Option ℕ

-- `json.Unmarshal` into a `dgraphUser`; no query asks for `dgraph.type`.
unfoldable pub unmarshal_user : Text → Values → DgraphUser
unfolding text_field bool_field time_field
unmarshal_user u vals = record {
  uid = Subject.uid u;
  d_type = [];
  id = text_field (vals "user.id");
  first_name = text_field (vals "user.first_name");
  last_name = text_field (vals "user.last_name");
  nickname = text_field (vals "user.nickname");
  password_hash = text_field (vals "user.password_hash");
  email = text_field (vals "user.email");
  country = text_field (vals "user.country");
  active = bool_field (vals "user.active");
  created_at = time_field (vals "user.created_at");
  updated_at = time_field (vals "user.updated_at");
}

-- `toDomain`.
unfoldable pub to_domain : DgraphUser → User
unfolding parse_rfc3339
to_domain d = record {
  id = d.id;
  first_name = d.first_name;
  last_name = d.last_name;
  nickname = d.nickname;
  password_hash = d.password_hash;
  email = d.email;
  country = d.country;
  active = d.active;
  created_at = parse_rfc3339 d.created_at;
  updated_at = parse_rfc3339 d.updated_at;
}

-- The keys of a `dgraphUser` but `uid` and `dgraph.type`.
unfoldable pub user_entries : DgraphUser → List (String × Entry)
user_entries d =
    ("user.id", omitempty d.id)
    ∷ ("user.first_name", omitempty d.first_name)
    ∷ ("user.last_name", omitempty d.last_name)
    ∷ ("user.nickname", omitempty d.nickname)
    ∷ ("user.password_hash", omitempty d.password_hash)
    ∷ ("user.email", omitempty d.email)
    ∷ ("user.country", omitempty d.country)
    ∷ ("user.active", always (bool d.active))
    ∷ ("user.created_at", omitempty_time d.created_at)
    ∷ ("user.updated_at", omitempty_time d.updated_at)
    ∷ []

-- The mutation of the JSON object of a `dgraphUser`.
unfoldable pub user_quads : DgraphUser → List Quad
unfolding about each_text
user_quads d =
    about d.uid (each_text "dgraph.type" d.d_type) ++ about d.uid (marshal (user_entries d))

-- What `Create` writes.
unfoldable pub created_user : User → DgraphUser
created_user u = record {
  uid = blank "user";
  d_type = lit "User" ∷ [];
  id = u.id;
  first_name = u.first_name;
  last_name = u.last_name;
  nickname = u.nickname;
  password_hash = u.password_hash;
  email = u.email;
  country = u.country;
  active = u.active;
  created_at = some (u.created_at / second);
  updated_at = some (u.updated_at / second);
}

-- `if input.Field != nil { du.Field = *input.Field }`.
abbrev pub given : Option Text → Text → Text
given none old = old
given (some t) old = t

-- The assignments of `Update` at the reading `now` of the clock.
unfoldable pub patched : UpdateUserInput → ℕ → DgraphUser → DgraphUser
patched i now d = record d {
  first_name = given i.first_name d.first_name;
  last_name = given i.last_name d.last_name;
  nickname = given i.nickname d.nickname;
  country = given i.country d.country;
  updated_at = some (now / second);
}

-- The fields that `List` and `Update` ask for, and those of the lookups.
abbrev pub public_fields : List String
public_fields =
    "user.id" ∷ "user.first_name" ∷ "user.last_name" ∷ "user.nickname" ∷ "user.email"
    ∷ "user.country" ∷ "user.active" ∷ "user.created_at" ∷ "user.updated_at" ∷ []

abbrev pub user_fields : List String
user_fields = "user.password_hash" ∷ public_fields

unfoldable pub user_query : String → Text → List String → Bool → Query
user_query p value fields best_effort = record {
  root = by_eq p value;
  filter = unfiltered;
  order = unordered;
  fields = fields;
  best_effort = best_effort;
}

-- The int64 of an integer that is not negative.
unfoldable pub to_int64 : ℕ → ℤ
to_int64 n = let m = n % 2 ^ 64 in if ltb m (2 ^ 63) then pos m else negsuc (2 ^ 64 - 1 - m)

-- The query of `List`, for a page and a page size of at least 1.
unfoldable pub list_query : Text → ℕ → ℕ → Bool → PageQuery
unfolding to_int64
list_query country page page_size best_effort = record {
  root = if is_empty country then by_type "User" else by_eq "user.country" country;
  filter = is_true "user.active";
  offset = to_int64 ((page - 1) * page_size);
  first = pos page_size;
  fields = public_fields;
  best_effort = best_effort;
}

-- `newReadTxn`: without a zookie the transaction is best effort.
abbrev pub is_best_effort : Option Zookie → Bool
is_best_effort none = true
is_best_effort (some z) = false

-- `result.Total[0].Count`, 0 if there is none.
abbrev pub total_count : List ℕ → ℕ
total_count [] = 0
total_count (n ∷ ns) = n

-- `int(math.Ceil(float64(total) / float64(pageSize)))`, at least 1. A count of uids and a page size are
-- exact in a float64, and so is the ceiling of their quotient below 2 ^ 53.
unfoldable pub page_count : ℕ → ℕ → ℕ
page_count total page_size =
    let pages = (total + (page_size - 1)) / page_size in if ltb pages 1 then 1 else pages
