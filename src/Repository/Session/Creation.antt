-- ===== src/Repository/Session/Creation.antt =====
-- internal/repository/dgraph/session.go: what `Create` and `RotateTokens` store in a new session.
pub mod Stored
use elysium.Prelude.{
  ℕ, suc, ◌*◌, ◌/◌, ◌≤◌, ◌<◌, String, ◌≡◌, refl, sym, ap, ◌∙◌, ◌≢◌, ◌⊎◌, inl, inr, Bool, true,
  false, ◌&&◌, ◌||◌, not, Option, none, some, Option-cases, Bool-cases, List, [], ◌∷◌, ◌++◌, map,
  Text, ◌==◌, eq_iff, lit, length, if◌then◌else◌, arith, All, ltb, mem_text, str_eq,
}
use elysium.Dgraph.{Object, str, int, bool, time, Dgraph, Values, no_values, Storage, each_text}
use elysium.Dgraph.Schema.{is_list}
use elysium.Dgraph.Laws.{holds_text, put, put_all, IsDgraph}
use elysium.Dgraph.Writes.{put_all-append, put_all-each_text_other, holds_text-put_all}
use elysium.Domain.Session.{Session, SessionCreateInput, second}
use elysium.Repository.Session.Wire.{
  text_field, texts_field, int_field, bool_field, time_field, unmarshal_session, node_to_session,
  read_session, format_rfc3339, parse_rfc3339,
}
use elysium.Repository.Session.Quads.{session_pairs, snapshot_pairs}

-- The lists of a node, as sets of texts.
mem_text-texts_field : (t : Text) (os : List Object) → mem_text t (texts_field os) ≡ holds_text t os
unfolding mem_text texts_field holds_text
mem_text-texts_field t [] = refl
mem_text-texts_field t (str s ∷ os) = ground (arith, mem_text-texts_field t os)
mem_text-texts_field t (int n ∷ os) = mem_text-texts_field t os
mem_text-texts_field t (bool n ∷ os) = mem_text-texts_field t os
mem_text-texts_field t (time n ∷ os) = mem_text-texts_field t os

-- A session that holds the input: texts and numbers as given, lists as sets, times to the second.
pub record IsCreated (i : SessionCreateInput) (now : ℕ) (s : Session) : Type 0 where
  pub kind : s.kind ≡ i.kind
  pub user_id : s.user_id ≡ i.user_id
  pub client_id : s.client_id ≡ i.client_id
  pub actor_id : s.actor_id ≡ i.actor_id
  pub actor_type : s.actor_type ≡ i.actor_type
  pub access_token_hash : s.access_token_hash ≡ i.access_token_hash
  pub refresh_token_hash : s.refresh_token_hash ≡ i.refresh_token_hash
  pub refresh_jti : s.refresh_jti ≡ i.refresh_jti
  pub replaced_by_jti : s.replaced_by_jti ≡ []
  pub permissions : (t : Text) → mem_text t s.permissions ≡ mem_text t i.permissions
  pub delegated_permissions :
      (t : Text) → mem_text t s.delegated_permissions ≡ mem_text t i.delegated_permissions
  pub policy_groups : (t : Text) → mem_text t s.policy_groups ≡ mem_text t i.policy_groups
  pub permission_version : s.permission_version ≡ i.permission_version
  pub expires_at : s.expires_at ≡ i.expires_at / second * second
  pub refresh_expires_at : s.refresh_expires_at ≡ i.refresh_expires_at / second * second
  pub revoked : s.revoked ≡ false
  pub created_at : s.created_at ≡ now / second * second
  pub last_seen_at : s.last_seen_at ≡ now / second * second
  pub user_agent : s.user_agent ≡ i.user_agent
  pub ip_address : s.ip_address ≡ i.ip_address

module _ {Db : Type 0} ⦃dg : Dgraph Db⦄ (laws : IsDgraph dg) (i : SessionCreateInput)
    (now : ℕ) where
  abbrev pub created_values : Values
  created_values = put_all dg.storage (session_pairs i now ++ snapshot_pairs i) no_values

  abbrev base_values : Values
  base_values = put_all dg.storage (session_pairs i now) no_values

  abbrev listing : String → List Text → Values → Values
  listing p ts vals = put_all dg.storage (each_text p ts) vals

  created_parts :
      created_values
      ≡ listing "session.policy_groups" i.policy_groups (
          listing "session.delegated_permissions" i.delegated_permissions
            (listing "session.permissions" i.permissions base_values))
  unfolding snapshot_pairs
  created_parts =
      put_all-append dg.storage (session_pairs i now) (snapshot_pairs i) no_values
      ∙ put_all-append dg.storage (each_text "session.permissions" i.permissions) _ base_values
      ∙ put_all-append dg.storage
          (each_text "session.delegated_permissions" i.delegated_permissions) _ _

  -- A predicate that is none of the three lists.
  created_scalar :
      (p : String)
      → str_eq "session.permissions" p ≡ false
      → str_eq "session.delegated_permissions" p ≡ false
      → str_eq "session.policy_groups" p ≡ false
      → created_values p ≡ base_values p
  created_scalar p a b c =
      ap (λ (v : Values). v p) created_parts
      ∙ put_all-each_text_other dg.storage "session.policy_groups" p i.policy_groups _ c
      ∙ put_all-each_text_other dg.storage "session.delegated_permissions" p i.delegated_permissions
          _ b
      ∙ put_all-each_text_other dg.storage "session.permissions" p i.permissions _ a

  -- The pairs before the lists put nothing in them.
  base_permissions : base_values "session.permissions" ≡ []
  unfolding session_pairs put_all put is_list format_rfc3339
  base_permissions = refl

  base_delegated : base_values "session.delegated_permissions" ≡ []
  unfolding session_pairs put_all put is_list format_rfc3339
  base_delegated = refl

  base_groups : base_values "session.policy_groups" ≡ []
  unfolding session_pairs put_all put is_list format_rfc3339
  base_groups = refl

  -- A list that held nothing holds the texts written to it.
  listing-empty :
      (p : String) (ts : List Text) (vals : Values) (t : Text)
      → is_list p ≡ true
      → str_eq p p ≡ true
      → vals p ≡ []
      → holds_text t (listing p ts vals p) ≡ mem_text t ts
  unfolding holds_text
  listing-empty p ts vals t l e h =
      holds_text-put_all laws p ts vals t l e
      ∙ ap (λ os. mem_text t ts || holds_text t os) h
      ∙ or_false (mem_text t ts)
    where
      or_false : (b : Bool) → (b || false) ≡ b
      or_false true = refl
      or_false false = refl

  created_permissions :
      (t : Text) → holds_text t (created_values "session.permissions") ≡ mem_text t i.permissions
  unfolding is_list
  created_permissions t =
      ap (λ (v : Values). holds_text t (v "session.permissions")) created_parts
      ∙ ap (holds_text t) (
          put_all-each_text_other dg.storage "session.policy_groups" "session.permissions"
            i.policy_groups _ refl
          ∙ put_all-each_text_other dg.storage "session.delegated_permissions" "session.permissions"
              i.delegated_permissions _ refl)
      ∙ listing-empty "session.permissions" i.permissions base_values t refl refl base_permissions

  created_delegated :
      (t : Text)
      → holds_text t (created_values "session.delegated_permissions")
        ≡ mem_text t i.delegated_permissions
  unfolding is_list
  created_delegated t =
      ap (λ (v : Values). holds_text t (v "session.delegated_permissions")) created_parts
      ∙ ap (holds_text t) (
          put_all-each_text_other dg.storage "session.policy_groups" "session.delegated_permissions"
            i.policy_groups _ refl)
      ∙ listing-empty "session.delegated_permissions" i.delegated_permissions _ t refl refl (
          put_all-each_text_other dg.storage "session.permissions" "session.delegated_permissions"
            i.permissions base_values refl
          ∙ base_delegated)

  created_groups :
      (t : Text)
      → holds_text t (created_values "session.policy_groups") ≡ mem_text t i.policy_groups
  unfolding is_list
  created_groups t =
      ap (λ (v : Values). holds_text t (v "session.policy_groups")) created_parts
      ∙ listing-empty "session.policy_groups" i.policy_groups _ t refl refl (
          put_all-each_text_other dg.storage "session.delegated_permissions" "session.policy_groups"
            i.delegated_permissions _ refl
          ∙ (put_all-each_text_other dg.storage "session.permissions" "session.policy_groups"
                i.permissions base_values refl
              ∙ base_groups))

  -- The session read of these values holds the input.
  pub read_session-IsCreated : (u : Text) → IsCreated i now (read_session u created_values)
  unfolding unmarshal_session node_to_session text_field int_field bool_field time_field
      parse_rfc3339 session_pairs put_all put format_rfc3339 is_list
  read_session-IsCreated u = record {
    kind = ap text_field (created_scalar "session.kind" refl refl refl);
    user_id = ap text_field (created_scalar "session.user_id" refl refl refl);
    client_id = ap text_field (created_scalar "session.client_id" refl refl refl);
    actor_id = ap text_field (created_scalar "session.actor_id" refl refl refl);
    actor_type = ap text_field (created_scalar "session.actor_type" refl refl refl);
    access_token_hash = ap text_field (created_scalar "session.access_token_hash" refl refl refl);
    refresh_token_hash = ap text_field (created_scalar "session.refresh_token_hash" refl refl refl);
    refresh_jti = ap text_field (created_scalar "session.refresh_jti" refl refl refl);
    replaced_by_jti = ap text_field (created_scalar "session.replaced_by_jti" refl refl refl);
    permissions = λ t. mem_text-texts_field t _ ∙ created_permissions t;
    delegated_permissions = λ t. mem_text-texts_field t _ ∙ created_delegated t;
    policy_groups = λ t. mem_text-texts_field t _ ∙ created_groups t;
    permission_version = ap int_field (created_scalar "session.permission_version" refl refl refl);
    expires_at = stamp "session.expires_at" refl refl refl;
    refresh_expires_at = stamp "session.refresh_expires_at" refl refl refl;
    revoked = ap bool_field (created_scalar "session.revoked" refl refl refl);
    created_at = stamp "session.created_at" refl refl refl;
    last_seen_at = stamp "session.last_seen_at" refl refl refl;
    user_agent = ap text_field (created_scalar "session.user_agent" refl refl refl);
    ip_address = ap text_field (created_scalar "session.ip_address" refl refl refl);
  }
    where
      stamp :
          (p : String)
          → str_eq "session.permissions" p ≡ false
          → str_eq "session.delegated_permissions" p ≡ false
          → str_eq "session.policy_groups" p ≡ false
          → parse_rfc3339 (time_field (created_values p))
            ≡ parse_rfc3339 (time_field (base_values p))
      stamp p a b c = ap (λ os. parse_rfc3339 (time_field os)) (created_scalar p a b c)
