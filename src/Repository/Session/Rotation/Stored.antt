-- ===== src/Repository/Session/Rotation/Stored.antt =====
-- internal/repository/dgraph/session.go: a session that `RotateTokens` returns is stored, with the
-- rights that it carries on, and the old one is revoked.
use elysium.Prelude.{
  suc, String, ◌≡◌, sym, subst, ap, ◌∙◌, inl, inr, false, some, Bool-cases, Text, ◌==◌, eq_iff, lit,
}
use elysium.Errors.{ok}
use elysium.Dgraph.{Values, Uids, uid_of, Dgraph}
use elysium.Dgraph.Laws.{holds_text, IsFresh, IsWritten, IsDgraph}
use elysium.World.{World, ◌>>◌, begin, time_now, txn_mutate, txn_commit}
use elysium.World.Success.{bind-eq-ok, then-eq-ok}
use elysium.Domain.Session.{Session, SessionRefreshInput}
use elysium.Repository.Session.Wire.{SessionNode, read_session}
use elysium.Repository.Session.Quads.{rotation_quads, successor}
use elysium.Repository.Session.Revoked.{IsRevoked}
use elysium.Repository.Session.Creation.{IsCreated, created_values, read_session-IsCreated}
use elysium.Repository.Session.Creation.Stored.{get_by_id-IsFound, selected_id, read_back-db}
use elysium.Repository.Session.{
  valid_dgraph_uid, read_back, rotation_read, rotation_write, rotate_tokens,
}
use elysium.Repository.Session.Rotation.{
  ne_sym, reply_uids-eq-ok, reply_commit-eq-ok, rotation_values, names_new, rotation_retires,
  rotation_read-IsOld, IsOld, IsRotated,
}

module _ {Db : Type 0} ⦃dg : Dgraph Db⦄ (laws : IsDgraph dg) where
  apart :
      (id u : Text) (w : World Db) (old : SessionNode)
      → IsOld laws id w old
      → IsFresh dg laws.read w.db u
      → old.uid == u ≡ false
  unfolding holds_text
  apart id u w old o fresh = elim (Bool-cases (old.uid == u)) [
    | inl e ↦
        let same = (eq_iff old.uid u).0 e in
        cc (
          o.typed,
          ap (λ x. holds_text (lit "Session") (laws.read w.db x "dgraph.type")) same,
          ap (λ (v : Values). holds_text (lit "Session") (v "dgraph.type")) fresh.unused,
        )
    | inr e ↦ e
  ]

  written-IsRotated :
      (id : Text) (old : SessionNode) (i : SessionRefreshInput) (w v : World Db) (uids : Uids)
      (s : Session)
      → IsOld laws id w old
      → IsWritten dg laws.read (rotation_quads old i (w.clock 0)) uids w.db v.db
      → (read_back "dgraph: rotate tokens: no uid returned for new session" (uid_of uids "new") v).0
        ≡ ok (some s)
      → IsRotated laws old i w v.db s
  unfolding read_back successor
  written-IsRotated id old i w v uids s o wr h =
      let u = uid_of uids "new" in
      let fresh : IsFresh dg laws.read w.db u = wr.fresh "new" (names_new laws old i (w.clock 0)) in
      let ne : old.uid == u ≡ false = apart id u w old o fresh in
      let it = get_by_id-IsFound laws u v s (rw fresh.nonempty at h) in
      let same : s.id ≡ u = selected_id laws u v.db s it ∙ fresh.canonical in
      let values : laws.read v.db u ≡ created_values laws (successor old i) (w.clock 0) =
        rotation_values laws old i (w.clock 0) uids w.db v.db wr fresh (rw o.canonical ne) in
      let whole =
        it.stored ∙ ap (λ x. read_session x (laws.read v.db x)) same ∙ ap (read_session u) values in
      let made : IsCreated (successor old i) (w.clock 0) s =
        subst (IsCreated (successor old i) (w.clock 0)) (sym whole)
          (read_session-IsCreated laws (successor old i) (w.clock 0) u) in
      record {
        kind = made.kind;
        user_id = made.user_id;
        client_id = made.client_id;
        actor_id = made.actor_id;
        actor_type = made.actor_type;
        access_token_hash = made.access_token_hash;
        refresh_token_hash = made.refresh_token_hash;
        refresh_jti = made.refresh_jti;
        permissions = made.permissions;
        delegated_permissions = made.delegated_permissions;
        policy_groups = made.policy_groups;
        permission_version = made.permission_version;
        expires_at = made.expires_at;
        refresh_expires_at = made.refresh_expires_at;
        active = made.revoked;
        stored = it.stored;
        unused = ap (laws.read w.db) same ∙ fresh.unused;
        retired =
            subst (λ x. IsRevoked laws x v.db) o.canonical
              (rotation_retires laws old i (w.clock 0) uids w.db v.db wr
                (rw o.canonical (ne_sym old.uid u ne)));
      }

  rotation_write-IsRotated :
      (id : Text) (old : SessionNode) (i : SessionRefreshInput) (w : World Db) (s : Session)
      → IsOld laws id w old
      → (rotation_write w.db old i w).0 ≡ ok (some s)
      → IsRotated laws old i w (rotation_write w.db old i w).1.db s
  unfolding rotation_write time_now txn_mutate txn_commit
  rotation_write-IsRotated id old i w s o h =
      let qs = rotation_quads old i (w.clock 0) in
      let w' = record w { clock = λ k. w.clock (suc k) } in
      let missing : String = "dgraph: rotate tokens: no uid returned for new session" in
      let (uids, e1, r1) =
        bind-eq-ok (txn_mutate "dgraph: rotate tokens mutate" w.db qs)
          (λ us.
            txn_commit "dgraph: rotate tokens commit" w.db qs us
            >> read_back missing (uid_of us "new"))
          w' (some s) h in
      let back = read_back missing (uid_of uids "new") in
      let (done, e2, r2) =
        then-eq-ok (txn_commit "dgraph: rotate tokens commit" w.db qs uids) back w' (some s)
          (sym (ap (λ p. p.0) r1) ∙ h) in
      let v = (txn_commit "dgraph: rotate tokens commit" w.db qs uids w').1 in
      let wr =
        laws.committed qs uids w.db w.db (reply_uids-eq-ok _ _ uids e1)
          (reply_commit-eq-ok _ _ e2) in
      let whole = r1 ∙ r2 in
      subst (λ db. IsRotated laws old i w db s)
        (sym (ap (λ p. p.1.db) whole ∙ ap (λ x. x.db) (read_back-db laws missing _ v)))
        (written-IsRotated id old i w v uids s o wr (sym (ap (λ p. p.0) whole) ∙ h))

  -- If `RotateTokens` returns a session, the old one was stored under the id, as a session that was
  -- not revoked; it is marked as revoked afterwards, and the session returned is stored under a uid
  -- that nothing stood under, with the identity of the old one, the tokens and expiries of the input,
  -- and the permissions of the input, or those of the old one where the input has none.
  pub rotate_tokens-IsRotated :
      (i : SessionRefreshInput) (w : World Db) (s : Session)
      → (rotate_tokens i w).0 ≡ ok (some s)
      → (old : SessionNode) × IsOld laws i.old_session_id w old
        × IsRotated laws old i w (rotate_tokens i w).1.db s
  unfolding rotate_tokens begin
  rotate_tokens-IsRotated i w s h = elim (Bool-cases (valid_dgraph_uid i.old_session_id)) [
    | inr e ↦ cc (rw e at h)
    | inl e ↦
        let h' = rw e at h in
        let (old, got, r) =
          bind-eq-ok (rotation_read w.db i.old_session_id) (λ old. rotation_write w.db old i) w
            (some s) h' in
        let o = rotation_read-IsOld laws i.old_session_id w old got in
        let whole = r ∙ ap (rotation_write w.db old i) o.kept in
        (
          old,
          o,
          rw e (
              subst (λ p. IsRotated laws old i w p.1.db s) (sym whole)
                (rotation_write-IsRotated i.old_session_id old i w s o
                  (sym (ap (λ p. p.0) whole) ∙ h'))),
        )
  ]
