-- ===== src/Service/Session/Renewal/Stored.antt =====
-- internal/service/session.go: the session that a successful `Refresh` returns, and the old one.
use elysium.Prelude.{mem_text, ◌/◌, ◌*◌, ◌≤◌, ◌≡◌, sym, ap, ◌∙◌, subst, false, some, Text, arith}
use elysium.Errors.{ok}
use elysium.Dgraph.{Dgraph}
use elysium.World.{World, time_now}
use elysium.Domain.Session.{Session, second, is_refresh_expired}
use elysium.Token.{Digest, hash_token}
use elysium.Repository.Session as Repo
use elysium.Dgraph.Laws.{IsDgraph, select, listed}
use elysium.Repository.Session.Wire.{
  SessionNode, unmarshal_session, node_to_session, rotation_fields,
}
use elysium.Repository.Session.Lookup.{IsFound, session_at, query_one-IsFound}
use elysium.Repository.Session.Revoked.{IsRevoked}
use elysium.Repository.Session.Rotation.Stored.{rotate_tokens-IsRotated}
use elysium.Service.Session.{
  refresh, SessionConfig, RefreshInput, SessionOutput, refresh_input, rotate,
}
use elysium.Service.Session.Renewal.{
  IsRotation, rotate-IsRotation, refresh_rotatable, found_refresh,
}

module _ {Db : Type 0} ⦃dg : Dgraph Db⦄ ⦃d : Digest⦄ (laws : IsDgraph dg) where
  -- A session that was renewed: the session found under the old refresh token, and the one returned.
  pub record IsRenewed (i : RefreshInput) (w : World Db) (after : Db) (out : SessionOutput)
      (new : Session) : Type 0 where
    pub old : Session
    pub found_it :
        IsFound laws
          (Repo.hash_query "session.refresh_token_hash" (hash_token i.raw_refresh_token))
          w.db
          old
    pub in_time : w.clock 0 ≤ old.refresh_expires_at
    pub kind : new.kind ≡ old.kind
    pub user_id : new.user_id ≡ old.user_id
    pub client_id : new.client_id ≡ old.client_id
    pub actor_id : new.actor_id ≡ old.actor_id
    pub actor_type : new.actor_type ≡ old.actor_type
    pub permissions : (t : Text) → mem_text t new.permissions ≡ mem_text t old.permissions
    pub delegated_permissions :
        (t : Text) → mem_text t new.delegated_permissions ≡ mem_text t old.delegated_permissions
    pub policy_groups : (t : Text) → mem_text t new.policy_groups ≡ mem_text t old.policy_groups
    pub access : new.access_token_hash ≡ hash_token out.access_token
    pub refresh : new.refresh_token_hash ≡ hash_token out.refresh_token
    pub refresh_expires_at : new.refresh_expires_at ≡ old.refresh_expires_at / second * second
    pub active : new.revoked ≡ false
    pub stored : new ≡ session_at laws after new.id
    pub retired : IsRevoked laws old.id after

  renewed :
      (c : SessionConfig) (i : RefreshInput) (w : World Db) (old new : Session)
      (out : SessionOutput) (after : World Db)
      → IsFound laws
          (Repo.hash_query "session.refresh_token_hash" (hash_token i.raw_refresh_token))
          w.db
          old
      → w.clock 0 ≤ old.refresh_expires_at
      → out.session ≡ some new
      → IsRotation c i old w out after
      → IsRenewed i w after.db out new
  unfolding refresh_input unmarshal_session node_to_session select listed
  renewed c i w old new out after f in_time some_new ro =
      let q = Repo.rotate_tokens (refresh_input c i old ro.atk ro.rtk ro.jti ro.now) in
      let (node, o, it) =
        rotate_tokens-IsRotated laws (refresh_input c i old ro.atk ro.rtk ro.jti ro.now) ro.before
          new (ro.rotation ∙ ap ok some_new) in
      let at_old : node.uid ≡ old.id = o.same ∙ f.canonical in
      let whole : node ≡ unmarshal_session old.id (select rotation_fields (laws.read w.db old.id)) =
        o.read
        ∙ ap (λ u. unmarshal_session u (select rotation_fields (laws.read ro.before.db u))) at_old
        ∙ ap (λ db. unmarshal_session old.id (select rotation_fields (laws.read db old.id)))
            ro.same_db in
      let left : (q ro.before).1.db ≡ after.db = ap (λ (v : World Db). v.db) (sym ro.left) in
      record {
        old = old;
        found_it = f;
        in_time = in_time;
        kind =
            it.kind
            ∙ ap (λ (n : SessionNode). n.kind) whole
            ∙ sym (ap (λ (s : Session). s.kind) f.stored);
        user_id =
            it.user_id
            ∙ ap (λ (n : SessionNode). n.user_id) whole
            ∙ sym (ap (λ (s : Session). s.user_id) f.stored);
        client_id =
            it.client_id
            ∙ ap (λ (n : SessionNode). n.client_id) whole
            ∙ sym (ap (λ (s : Session). s.client_id) f.stored);
        actor_id =
            it.actor_id
            ∙ ap (λ (n : SessionNode). n.actor_id) whole
            ∙ sym (ap (λ (s : Session). s.actor_id) f.stored);
        actor_type =
            it.actor_type
            ∙ ap (λ (n : SessionNode). n.actor_type) whole
            ∙ sym (ap (λ (s : Session). s.actor_type) f.stored);
        permissions = λ t.
            it.permissions t
            ∙ ap (λ (n : SessionNode). mem_text t n.permissions) whole
            ∙ sym (ap (λ (s : Session). mem_text t s.permissions) f.stored);
        delegated_permissions = λ t.
            it.delegated_permissions t
            ∙ ap (λ (n : SessionNode). mem_text t n.deleg_perms) whole
            ∙ sym (ap (λ (s : Session). mem_text t s.delegated_permissions) f.stored);
        policy_groups = λ t.
            it.policy_groups t
            ∙ ap (λ (n : SessionNode). mem_text t n.policy_groups) whole
            ∙ sym (ap (λ (s : Session). mem_text t s.policy_groups) f.stored);
        access = it.access_token_hash ∙ ro.access;
        refresh = it.refresh_token_hash ∙ ro.refresh;
        refresh_expires_at = it.refresh_expires_at;
        active = it.active;
        stored = it.stored ∙ ap (λ db. session_at laws db new.id) left;
        retired =
            subst (λ db. IsRevoked laws old.id db) left
              (subst (λ u. IsRevoked laws u (q ro.before).1.db) at_old it.retired);
      }

  -- If `Refresh` returns a session, the refresh token is that of a stored session within its refresh
  -- expiry. That session is marked as revoked afterwards, and the one returned is stored, not revoked,
  -- under the hashes of the two tokens returned, with the identity, the permissions and the refresh
  -- expiry (to the second) of the old one.
  pub refresh-IsRenewed :
      (c : SessionConfig) (i : RefreshInput) (w : World Db) (out : SessionOutput) (new : Session)
      → (refresh c i w).0 ≡ ok out
      → out.session ≡ some new
      → IsRenewed i w (refresh c i w).1.db out new
  unfolding is_refresh_expired Repo.get_by_refresh_hash time_now
  refresh-IsRenewed c i w out new h some_new =
      let (old, found_it, live, early) = refresh_rotatable c i w out h in
      let same = found_refresh c i w old found_it live early in
      let ro = rotate-IsRotation c i old (time_now w).1 out (sym (ap (λ p. p.0) same) ∙ h) in
      subst (λ (v : World Db). IsRenewed i w v.db out new) (sym (ap (λ p. p.1) same))
        (renewed c i w old new out (rotate c i old (time_now w).1).1
          (query_one-IsFound laws "session.refresh_token_hash" (hash_token i.raw_refresh_token) w
            old found_it)
          (ground arith) some_new
          (record {
            atk = ro.atk;
            rtk = ro.rtk;
            jti = ro.jti;
            now = ro.now;
            before = ro.before;
            same_db = ro.same_db;
            access = ro.access;
            refresh = ro.refresh;
            rotation = ro.rotation;
            left = ro.left;
          }))
