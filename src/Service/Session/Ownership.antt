-- ===== src/Service/Session/Ownership.antt =====
-- internal/service/session.go: whose sessions `RevokeSession` revokes.
use elysium.Prelude.{
  ℕ, ◌≡◌, refl, sym, ap, ◌∙◌, suc, true, Option, none, some, Text, ◌==◌, eq_iff, eq_refl, String,
  Bool-cases, inl, inr,
}
use elysium.Errors.{ok}
use elysium.Dgraph.{Dgraph, Values, uid, set, about}
use elysium.Dgraph.Schema.{is_list}
use elysium.Dgraph.Laws.{holds_true, put, put_all, target, IsDgraph}
use elysium.Dgraph.Writes.{set_all-about_self}
use elysium.World.{World, return, wrapped, time_now, mutate_now}
use elysium.World.Success.{bind-eq-ok, then-eq-ok, rewrap-eq-ok, mutate_now-Committed}
use elysium.Domain.Session.{Session}
use elysium.Token.{Digest}
use elysium.Repository.Session.Quads.{revocation_pairs}
use elysium.Repository.Session.Revoked.{IsRevoked, mark_of}
use elysium.Repository.Session.Lookup.{IsFound}
use elysium.Repository.Session.Wire.{session_fields}
use elysium.Repository.Session.Creation.Stored.{get_by_id-IsFound, selected_id}
use elysium.Repository.Session.{id_query, get_by_id, revoke}
use elysium.Service.Session.{revoke_found, revoke_session}

module _ {Db : Type 0} ⦃dg : Dgraph Db⦄ (laws : IsDgraph dg) where
  marked :
      (now : ℕ) (vals : Values) → mark_of (put_all dg.storage (revocation_pairs now) vals) ≡ true
  unfolding put_all put revocation_pairs holds_true is_list
  marked now vals = refl

  -- A revocation that succeeds marks the node.
  pub revoke-marks :
      (id : Text) (w : World Db)
      → (revoke id w).0 ≡ ok tt
      → IsRevoked laws (dg.storage.resolve id) (revoke id w).1.db
  unfolding revoke time_now target
  revoke-marks id w h =
      let step : String = "dgraph: revoke session" in
      let m = set (about (uid id) (revocation_pairs (w.clock 0))) in
      let w' = record w { clock = λ k. w.clock (suc k) } in
      let (uids, e, r) = then-eq-ok (mutate_now step m) (return tt) w' tt h in
      let wr = mutate_now-Committed laws step m w' uids e in
      let u = dg.storage.resolve id in
      ap (λ p. mark_of (laws.read p.1.db u)) r
      ∙ ap mark_of (wr.reads u ∙ set_all-about_self dg.storage uids (uid id) _ _ u (eq_refl u))
      ∙ marked (w.clock 0) _

module _ {Db : Type 0} ⦃dg : Dgraph Db⦄ ⦃d : Digest⦄ (laws : IsDgraph dg) where
  revoke_found-IsRevoked :
      (id user_id : Text) (w : World Db) (o : Option Session)
      → (revoke_found id user_id o w).0 ≡ ok tt
      → (s : Session) × (o ≡ some s)
        × (s.user_id ≡ user_id)
        × IsRevoked laws (dg.storage.resolve id) (revoke_found id user_id o w).1.db
  unfolding revoke_found
  revoke_found-IsRevoked id user_id w none h = cc
  revoke_found-IsRevoked id user_id w (some s) h = elim (Bool-cases (s.user_id == user_id)) [
    | inl own ↦
        (s, refl, (eq_iff s.user_id user_id).0 own, rw own (revoke-marks laws id w (rw own at h)))
    | inr other ↦ cc (rw other at h)
  ]

  -- `RevokeSession` succeeds only if the id is that of a stored session of the requesting user, and that
  -- session is marked as revoked afterwards.
  pub revoke_session_sound :
      (id user_id : Text) (w : World Db)
      → (revoke_session id user_id w).0 ≡ ok tt
      → (s : Session) × IsFound laws (id_query id session_fields) w.db s
        × (s.user_id ≡ user_id)
        × IsRevoked laws s.id (revoke_session id user_id w).1.db
  unfolding revoke_session
  revoke_session_sound id user_id w h =
      let (o, e, r) =
        bind-eq-ok (wrapped "looking up session" (get_by_id id)) (revoke_found id user_id) w tt h in
      let got = rewrap-eq-ok "looking up session" _ o e in
      let (s, same, own, marked_now) =
        revoke_found-IsRevoked id user_id (get_by_id id w).1 o (sym (ap (λ p. p.0) r) ∙ h) in
      let it = get_by_id-IsFound laws id w s (got ∙ ap ok same) in
      (
        s,
        it,
        own,
        ap (λ p. mark_of (laws.read p.1.db s.id)) r
            ∙ ap (λ u. mark_of (laws.read (revoke_found id user_id o (get_by_id id w).1).1.db u))
                (selected_id laws id w.db s it)
            ∙ marked_now,
      )
