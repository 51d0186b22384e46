-- ===== src/Repository/User.antt =====
-- internal/repository/dgraph/repository.go: `Repository`, over Dgraph.
pub mod Wire
pub mod Writes
pub mod Creation
pub mod Lookup
pub mod Unique
pub mod Updates
pub mod Listing
use elysium.Prelude.{
  ℕ, String, Bool, true, false, Option, none, some, List, [], ◌∷◌, map, Text, lit, nat_eq, is_empty,
  if◌then◌else◌,
}
use elysium.Errors.{sentinel, outside, wrap, Result, ok, err, user_not_found, user_already_exists}
use elysium.Base64.{Base64}
use elysium.Dgraph.{Quad, Node, by_uid, unfiltered, unordered, Query, delete, Dgraph}
use elysium.Dgraph.Upserts.{
  Absences, PageQuery, PageReply, page_failed, page_malformed, page, Upserts,
}
use elysium.World.{
  World, Action, ◌>>=◌, ◌>>◌, return, fail, time_now, begin, fetch, txn_fetch, mutate_now,
  txn_mutate, txn_commit, reply_uids,
}
use elysium.Dgraph.{Uids}
use elysium.Domain.Zookie.{Zookie, new_zookie}
use elysium.Domain.User.{
  User, UpdateUserInput, ListFilter, ListResult, to_lower, normal_page, normal_page_size,
}
use elysium.Service.Outside.{UserRepository}
use Wire.{
  DgraphUser, unmarshal_user, to_domain, created_user, user_quads, patched, public_fields,
  user_fields, user_query, list_query, is_best_effort, total_count, page_count,
}

-- The duplicates that `Create` refuses.
unfoldable pub create_absences : User → Absences
create_absences u = ("user.email", to_lower u.email) ∷ ("user.nickname", u.nickname) ∷ []

abbrev pub node_user : Node → DgraphUser
node_user n = unmarshal_user n.uid n.vals

abbrev pub reply_page : PageReply → Result (List Node × ℕ)
reply_page page_failed = err (wrap "dgraph: list" (outside "dgraph query"))
reply_page page_malformed = err (wrap "dgraph: list unmarshal" (outside "json unmarshal"))
reply_page (page ns total) = ok (ns, total_count total)

abbrev pub zookie_of : ⦃b : Base64⦄ → Option ℕ → Zookie
zookie_of none = record { token = [] }
zookie_of ⦃b⦄ (some ts) =
    if nat_eq ts 0 then record { token = [] } else new_zookie b.raw_url_encode ts

module _ {Db : Type 0} ⦃up : Upserts Db⦄ where
  -- `client.NewTxn().Do(ctx, req)` of a conditional mutation: `resp.Uids`.
  unfoldable pub upsert_now : String → Absences → List Quad → Action Db Uids
  upsert_now step cs qs w =
      (reply_uids step (up.upsert cs qs w.db).0, record w { db = (up.upsert cs qs w.db).1 })

  unfoldable pub fetch_page : PageQuery → Action Db (List Node × ℕ)
  fetch_page q w = (reply_page (up.query_page q w.db), w)

  -- `zookieFromTxn` of the response to the last write.
  unfoldable pub zookie_from_txn : ⦃b : Base64⦄ → Action Db Zookie
  zookie_from_txn w = (ok (zookie_of (up.commit_ts w.db)), w)

module _ {Db : Type 0} ⦃dg : Dgraph Db⦄ ⦃up : Upserts Db⦄ ⦃b : Base64⦄ where
  unfoldable pub answer_created : Uids → Action Db Zookie
  answer_created uids =
      if is_empty uids then fail (sentinel user_already_exists) else zookie_from_txn

  unfoldable pub create : User → Action Db Zookie
  create u = do
    uids ← upsert_now "dgraph: create user" (create_absences u) (user_quads (created_user u))
    answer_created uids

  -- `Update` on the users that it read in a transaction that began on the state `before`. Its last
  -- call is `txn.Mutate` with `CommitNow`: the mutation and the commit are one step, which may fail
  -- with nothing or with everything written.
  unfoldable pub update_first : Db → UpdateUserInput → List Node → Action Db (User × Zookie)
  update_first before input [] = fail (sentinel user_not_found)
  update_first before input (n ∷ ns) = do
    now ← time_now
    uids ← txn_mutate "dgraph: update mutate" before (user_quads (patched input now (node_user n)))
    txn_commit "dgraph: update mutate" before (user_quads (patched input now (node_user n))) uids
    zookie ← zookie_from_txn
    return (to_domain (patched input now (node_user n)), zookie)

  unfoldable pub update : Text → UpdateUserInput → Action Db (User × Zookie)
  update id input = do
    before ← begin
    ns ← txn_fetch "dgraph: update read" before (user_query "user.id" id public_fields false)
    update_first before input ns

  -- `Delete` on the users that it found.
  unfoldable pub delete_first : List Node → Action Db Zookie
  delete_first [] = fail (sentinel user_not_found)
  delete_first (n ∷ ns) = do
    uids ← mutate_now "dgraph: delete mutate" (delete (n.uid ∷ []))
    zookie_from_txn

  unfoldable pub delete_user : Text → Action Db Zookie
  delete_user id = do
    ns ← fetch "dgraph: delete lookup" (user_query "user.id" id [] false)
    delete_first ns

  unfoldable pub first_user : List Node → Action Db User
  first_user [] = fail (sentinel user_not_found)
  first_user (n ∷ ns) = return (to_domain (node_user n))

  -- `queryOne`.
  unfoldable pub query_one : Query → Action Db User
  query_one q = do ns ← fetch "dgraph: query" q; first_user ns

  unfoldable pub get_by_id : Text → Option Zookie → Action Db User
  get_by_id id zookie = query_one (user_query "user.id" id user_fields (is_best_effort zookie))

  unfoldable pub get_by_email : Text → Option Zookie → Action Db User
  get_by_email email zookie =
      query_one (user_query "user.email" (to_lower email) user_fields (is_best_effort zookie))

  unfoldable pub list : ListFilter → Option Zookie → Action Db ListResult
  list f zookie = do
    (ns, total) ← fetch_page (
        list_query f.country (normal_page f.page) (normal_page_size f.page_size)
          (is_best_effort zookie))
    return (record {
      users = map (λ n. to_domain (node_user n)) ns;
      total = total;
      page = normal_page f.page;
      pages = page_count total (normal_page_size f.page_size);
    })

  unfoldable pub ping : Action Db (Unit {0})
  ping = do
    ns ← fetch "dgraph: ping" (record {
      root = by_uid (lit "0x1");
      filter = unfiltered;
      order = unordered;
      fields = [];
      best_effort = false;
    })
    return tt

  -- `var _ repository.UserRepository`: the contract that the service uses.
  unfoldable pub user_repository : UserRepository Db
  user_repository = record {
    create = create;
    get_by_id = get_by_id;
    get_by_email = get_by_email;
    update = update;
    delete = delete_user;
    list = list;
  }
