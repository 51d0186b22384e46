-- ===== src/Repository/Session/Rotation.antt =====
-- internal/repository/dgraph/session.go: what a successful `RotateTokens` leaves in the database.
pub mod Stored
use elysium.Prelude.{
  mem_text, is_empty, if◌then◌else◌, ◌/◌, ◌*◌, ℕ, suc, String, ◌≡◌, refl, sym, subst, ap, ◌∙◌, inl,
  inr, Bool, true, false, Option, none, some, Bool-cases, List, [], ◌∷◌, ◌++◌, Text, ◌==◌, eq_iff,
  eq_refl, lit, arith,
}
use elysium.Errors.{ok}
use elysium.Dgraph.{
  Values, no_values, Node, Reply, failed, malformed, found, Uids, uid_of, uid, blank, Dgraph, about,
}
use elysium.Dgraph.Schema.{is_list}
use elysium.Dgraph.Laws.{
  holds_text, holds_true, fits_root, fits_filter, select, listed, put, put_all, target, set_all,
  is_blank, names_blank, IsFresh, IsWritten, IsDgraph,
}
use elysium.Dgraph.Writes.{
  set_all-append, set_all-about_self, set_all-about_other, names_blank-append_right,
}
use elysium.World.{
  World, ◌>>◌, begin, time_now, txn_fetch, txn_mutate, txn_commit, reply_uids, reply_commit,
}
use elysium.World.Success.{bind-eq-ok, then-eq-ok}
use elysium.Domain.Session.{second, Session, SessionRefreshInput}
use elysium.Repository.Session.Wire.{SessionNode, unmarshal_session, rotation_fields, read_session}
use elysium.Repository.Session.Quads.{
  session_pairs, snapshot_pairs, rotation_pairs, rotation_quads, successor,
}
use elysium.Repository.Session.Revoked.{IsRevoked, mark_of}
use elysium.Repository.Session.Lookup.{session_at, bool_field-eq-holds_true}
use elysium.Repository.Session.Creation.{IsCreated, created_values, read_session-IsCreated}
use elysium.Repository.Session.Creation.Stored.{get_by_id-IsFound, selected_id, read_back-db}
use elysium.Repository.Session.{
  id_query, valid_dgraph_uid, read_back, check_old, rotation_read, rotation_write, rotate_tokens,
}

pub ne_sym : (s t : Text) → s == t ≡ false → t == s ≡ false
ne_sym s t h = elim (Bool-cases (t == s)) [
  | inl e ↦ cc (h, (eq_iff s t).1 (sym ((eq_iff t s).0 e)))
  | inr e ↦ e
]

pub reply_uids-eq-ok :
    (step : String) (o : Option Uids) (us : Uids) → reply_uids step o ≡ ok us → o ≡ some us
reply_uids-eq-ok step none us h = cc
reply_uids-eq-ok step (some vs) us h = cc

pub reply_commit-eq-ok : (step : String) (b : Bool) → reply_commit step b ≡ ok tt → b ≡ true
reply_commit-eq-ok step true h = refl
reply_commit-eq-ok step false h = cc

-- What the new session takes from the input if that has permissions, and from the old one if not.
abbrev pub carried {ℓ} : {A : Type ℓ} → SessionRefreshInput → A → A → A
carried i given old = if is_empty i.permissions then old else given

module _ {Db : Type 0} ⦃dg : Dgraph Db⦄ (laws : IsDgraph dg) where
  pub rotation_values :
      (old : SessionNode) (i : SessionRefreshInput) (now : ℕ) (uids : Uids) (db db' : Db)
      → IsWritten dg laws.read (rotation_quads old i now) uids db db'
      → IsFresh dg laws.read db (uid_of uids "new")
      → dg.storage.resolve old.uid == uid_of uids "new" ≡ false
      → laws.read db' (uid_of uids "new") ≡ created_values laws (successor old i) now
  unfolding rotation_quads target
  rotation_values old i now uids db db' wr fresh ne =
      let u = uid_of uids "new" in
      let made = session_pairs (successor old i) now ++ snapshot_pairs (successor old i) in
      wr.reads u
      ∙ set_all-append dg.storage uids u
          (about (uid old.uid) (rotation_pairs i.new_refresh_jti now)) (about (blank "new") made)
          (laws.read db u)
      ∙ ap (set_all dg.storage uids u (about (blank "new") made))
          (set_all-about_other dg.storage uids (uid old.uid) _ _ u ne)
      ∙ set_all-about_self dg.storage uids (blank "new") made _ u (eq_refl u)
      ∙ ap (put_all dg.storage made) fresh.unused

  pub rotation_mark :
      (jti : Text) (now : ℕ) (vals : Values)
      → mark_of (put_all dg.storage (rotation_pairs jti now) vals) ≡ true
  unfolding put_all put rotation_pairs holds_true is_list
  rotation_mark jti now vals = refl

  pub names_new :
      (old : SessionNode) (i : SessionRefreshInput) (now : ℕ)
      → names_blank "new" (rotation_quads old i now) ≡ true
  unfolding rotation_quads names_blank is_blank about session_pairs
  names_new old i now =
      names_blank-append_right "new" (about (uid old.uid) (rotation_pairs i.new_refresh_jti now)) _
        refl

  pub rotation_retires :
      (old : SessionNode) (i : SessionRefreshInput) (now : ℕ) (uids : Uids) (db db' : Db)
      → IsWritten dg laws.read (rotation_quads old i now) uids db db'
      → uid_of uids "new" == dg.storage.resolve old.uid ≡ false
      → IsRevoked laws (dg.storage.resolve old.uid) db'
  unfolding rotation_quads target
  rotation_retires old i now uids db db' wr ne =
      let u = dg.storage.resolve old.uid in
      ap mark_of (
        wr.reads u
        ∙ set_all-append dg.storage uids u
            (about (uid old.uid) (rotation_pairs i.new_refresh_jti now)) _ (laws.read db u)
        ∙ set_all-about_other dg.storage uids (blank "new") _ _ u ne
        ∙ set_all-about_self dg.storage uids (uid old.uid) _ _ u (eq_refl u))
      ∙ rotation_mark i.new_refresh_jti now _

  -- The old session, as the transaction reads it.
  pub record IsOld (id : Text) (w : World Db) (old : SessionNode) : Type 0 where
    pub read : old ≡ unmarshal_session old.uid (select rotation_fields (laws.read w.db old.uid))
    pub same : old.uid ≡ dg.storage.resolve id
    pub canonical : dg.storage.resolve old.uid ≡ old.uid
    pub typed : holds_text (lit "Session") (laws.read w.db old.uid "dgraph.type") ≡ true
    pub active : mark_of (laws.read w.db old.uid) ≡ false
    pub kept : (rotation_read w.db id w).1 ≡ w

  pub node-IsOld :
      (id : Text) (w : World Db) (n : Node) (ns : List Node)
      → dg.query (id_query id rotation_fields) w.db ≡ found (n ∷ ns)
      → (unmarshal_session n.uid n.vals).revoked ≡ false
      → IsOld id w (unmarshal_session n.uid n.vals)
  unfolding rotation_read txn_fetch check_old unmarshal_session id_query fits_root fits_filter
      select listed is_list
  node-IsOld id w n ns e live =
      let (fit, same_vals, canon) =
        (laws.sound (id_query id rotation_fields) w.db (n ∷ ns) refl e).0 in
      record {
        read = ap (unmarshal_session n.uid) same_vals;
        same = ground (arith, eq_iff n.uid (dg.storage.resolve id));
        canonical = canon;
        typed = ground arith;
        active =
            sym (bool_field-eq-holds_true _ (laws.single w.db n.uid "session.revoked" refl))
            ∙ sym (ap (λ (v : Values). (unmarshal_session n.uid v).revoked) same_vals)
            ∙ live;
        kept = rw (e, live) refl;
      }

  pub rotation_read-IsOld :
      (id : Text) (w : World Db) (old : SessionNode)
      → (rotation_read w.db id w).0 ≡ ok old
      → IsOld id w old
  unfolding rotation_read txn_fetch check_old
  rotation_read-IsOld id w old h = answered (dg.query (id_query id rotation_fields) w.db) refl
    where
      answered : (r : Reply) → dg.query (id_query id rotation_fields) w.db ≡ r → IsOld id w old
      answered failed e = cc (rw e at h)
      answered malformed e = cc (rw e at h)
      answered (found []) e = cc (rw e at h)
      answered (found (n ∷ ns)) e = elim (Bool-cases (unmarshal_session n.uid n.vals).revoked) [
        | inl revoked ↦ cc (rw (e, revoked) at h)
        | inr live ↦
            let same : unmarshal_session n.uid n.vals ≡ old = ground (arith, rw (e, live) at h) in
            subst (IsOld id w) same (node-IsOld id w n ns e live)
      ]

  -- What a rotation of the session read as `old` leaves: the new session `s` has the identity and
  -- permissions of the old one and the tokens and expiries of the input, and stands under a uid that
  -- nothing stood under; the old one is marked as revoked.
  pub record IsRotated (old : SessionNode) (i : SessionRefreshInput) (w : World Db) (after : Db)
      (s : Session) : Type 0 where
    pub kind : s.kind ≡ old.kind
    pub user_id : s.user_id ≡ old.user_id
    pub client_id : s.client_id ≡ old.client_id
    pub actor_id : s.actor_id ≡ old.actor_id
    pub actor_type : s.actor_type ≡ old.actor_type
    pub access_token_hash : s.access_token_hash ≡ i.new_access_token_hash
    pub refresh_token_hash : s.refresh_token_hash ≡ i.new_refresh_token_hash
    pub refresh_jti : s.refresh_jti ≡ i.new_refresh_jti
    pub permissions :
        (t : Text) → mem_text t s.permissions ≡ mem_text t (carried i i.permissions old.permissions)
    pub delegated_permissions :
        (t : Text)
        → mem_text t s.delegated_permissions
          ≡ mem_text t (carried i i.delegated_permissions old.deleg_perms)
    pub policy_groups :
        (t : Text)
        → mem_text t s.policy_groups ≡ mem_text t (carried i i.policy_groups old.policy_groups)
    pub permission_version : s.permission_version ≡ carried i i.permission_version old.perm_version
    pub expires_at : s.expires_at ≡ i.new_expires_at / second * second
    pub refresh_expires_at : s.refresh_expires_at ≡ i.new_refresh_expires_at / second * second
    pub active : s.revoked ≡ false
    pub stored : s ≡ session_at laws after s.id
    pub unused : laws.read w.db s.id ≡ no_values
    pub retired : IsRevoked laws old.uid after
