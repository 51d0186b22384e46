-- ===== src/Server/Laws.antt =====
-- cmd/server/main.go: the Vault client is shut down once on each way out of `run`, after all others.
use elysium.Prelude.{
  ℕ, ◌+◌, ◌≡◌, refl, Bool, true, false, ◌&&◌, some, List, [], ◌∷◌, ◌++◌, arith, Bool-cases,
  Option-cases, inl, inr, is_empty, ◌||◌,
}
use elysium.Config.{Config}
use elysium.Config.Laws.{IsBootable}
use elysium.Vault.Transit.{accepts_key}
use elysium.Server.{
  Effect, vault_login, vault_shutdown, dgraph_close, dgraph_open, schema_applied, listening,
  http_started, grpc_started, grpc_graceful_stop, grpc_stop, http_shutdown, panicked, Outcome,
  clean, failed, crashed, Wake, server_error, signal, Boot, Run, after, shutdown_all, closing,
  serve, cost_accepted, wire, apply_schemas, connect, configured, run,
}

abbrev pub is_login : Effect → ℕ
is_login vault_login = 1
is_login _ = 0

abbrev pub is_shutdown : Effect → ℕ
is_shutdown vault_shutdown = 1
is_shutdown _ = 0

abbrev pub logins : List Effect → ℕ
logins [] = 0
logins (e ∷ es) = is_login e + logins es

abbrev pub shutdowns : List Effect → ℕ
shutdowns [] = 0
shutdowns (e ∷ es) = is_shutdown e + shutdowns es

-- Only the connection to Dgraph is closed.
abbrev pub is_close : Effect → Bool
is_close dgraph_close = true
is_close _ = false

abbrev pub only_closes : List Effect → Bool
only_closes [] = true
only_closes (e ∷ es) = is_close e && only_closes es

-- After the Vault client nothing stops but the connection to Dgraph.
abbrev pub vault_last : List Effect → Bool
vault_last [] = true
vault_last (vault_shutdown ∷ es) = only_closes es
vault_last (_ ∷ es) = vault_last es

abbrev pub crashes : Outcome → Bool
crashes crashed = true
crashes clean = false
crashes failed = false

-- A part of `run` after the login to Vault.
IsTidy : Run → Type 0
IsTidy (es, o) = (shutdowns es ≡ 1) × (logins es ≡ 0) × (vault_last es ≡ true) × (crashes o ≡ false)

shutdowns-append : (es fs : List Effect) → shutdowns (es ++ fs) ≡ shutdowns es + shutdowns fs
shutdowns-append [] fs = omega arith
shutdowns-append (e ∷ es) fs = omega (arith, shutdowns-append es fs)

logins-append : (es fs : List Effect) → logins (es ++ fs) ≡ logins es + logins fs
logins-append [] fs = omega arith
logins-append (e ∷ es) fs = omega (arith, logins-append es fs)

only_closes-close :
    (es : List Effect) → only_closes es ≡ true → only_closes (es ++ dgraph_close ∷ []) ≡ true
only_closes-close [] h = refl
only_closes-close (e ∷ es) h = ground (arith, only_closes-close es)

vault_last-close :
    (es : List Effect) → vault_last es ≡ true → vault_last (es ++ dgraph_close ∷ []) ≡ true
vault_last-close [] h = refl
vault_last-close (vault_shutdown ∷ es) h = only_closes-close es h
vault_last-close (vault_login ∷ es) h = vault_last-close es h
vault_last-close (dgraph_open ∷ es) h = vault_last-close es h
vault_last-close (dgraph_close ∷ es) h = vault_last-close es h
vault_last-close (schema_applied n ∷ es) h = vault_last-close es h
vault_last-close (listening ∷ es) h = vault_last-close es h
vault_last-close (http_started ∷ es) h = vault_last-close es h
vault_last-close (grpc_started ∷ es) h = vault_last-close es h
vault_last-close (grpc_graceful_stop ∷ es) h = vault_last-close es h
vault_last-close (grpc_stop ∷ es) h = vault_last-close es h
vault_last-close (http_shutdown ∷ es) h = vault_last-close es h
vault_last-close (panicked ∷ es) h = vault_last-close es h

closing-IsTidy : (r : Run) → IsTidy r → IsTidy (closing r)
unfolding IsTidy closing
closing-IsTidy (es, o) (s, l, v, c) = (
  omega (arith, shutdowns-append es (dgraph_close ∷ [])),
  omega (arith, logins-append es (dgraph_close ∷ [])),
  vault_last-close es v,
  c,
)

serve-IsTidy : (k : Wake) (in_time : Bool) → IsTidy (after (listening ∷ []) (serve k in_time))
unfolding IsTidy serve shutdown_all
serve-IsTidy server_error true = (refl, refl, refl, refl)
serve-IsTidy server_error false = (refl, refl, refl, refl)
serve-IsTidy signal true = (refl, refl, refl, refl)
serve-IsTidy signal false = (refl, refl, refl, refl)

failed-IsTidy : IsTidy (vault_shutdown ∷ [], failed)
unfolding IsTidy
failed-IsTidy = (refl, refl, refl, refl)

opened-IsTidy : (r : Run) → IsTidy r → IsTidy (after (dgraph_open ∷ []) r)
unfolding IsTidy
opened-IsTidy (es, o) (s, l, v, c) = (omega (arith, s), omega (arith, l), v, c)

schema-IsTidy : (n : ℕ) (r : Run) → IsTidy r → IsTidy (after (schema_applied n ∷ []) r)
unfolding IsTidy
schema-IsTidy n (es, o) (s, l, v, c) = (omega (arith, s), omega (arith, l), v, c)

module _ {Float : Type 0} (b : Boot Float) (cfg : Config Float) (boots : IsBootable cfg) where
  cost-accepted : cost_accepted cfg.auth.bcrypt_cost ≡ true
  cost-accepted = let (n, e, a) = boots.0 in rw e a

  wire-IsTidy : IsTidy (wire b cfg)
  unfolding wire
  wire-IsTidy = elim (Bool-cases b.listen) [
    | inl e ↦ simp (boots.1, cost-accepted, e) (serve-IsTidy b.wake b.grpc_in_time)
    | inr e ↦ simp (boots.1, cost-accepted, e) failed-IsTidy
  ]

  apply_schemas-IsTidy : (n : ℕ) (rs : List Bool) → IsTidy (apply_schemas n rs b cfg)
  unfolding apply_schemas
  apply_schemas-IsTidy n [] = wire-IsTidy
  apply_schemas-IsTidy n (false ∷ rs) = failed-IsTidy
  apply_schemas-IsTidy n (true ∷ rs) = schema-IsTidy n _ (apply_schemas-IsTidy (n + 1) rs)

  connect-IsTidy : IsTidy (connect b cfg)
  unfolding connect
  connect-IsTidy = elim (Bool-cases b.dgraph_new) [
    | inr e ↦ simp e failed-IsTidy
    | inl e ↦ elim (Bool-cases cfg.database.dgraph_apply_schema) [
      | inl s ↦ simp (e, s) (opened-IsTidy _ (closing-IsTidy _ (apply_schemas-IsTidy 0 b.schemas)))
      | inr s ↦ simp (e, s) (opened-IsTidy _ (closing-IsTidy _ wire-IsTidy))
    ]
  ]

  configured-IsTidy : IsTidy (configured b (some cfg))
  unfolding configured
  configured-IsTidy = elim (Bool-cases cfg.auth.use_transit) [
    | inl t ↦ simp t connect-IsTidy
    | inr t ↦ elim (Bool-cases (accepts_key cfg.auth.signing_key)) [
      | inl k ↦ simp (t, k) connect-IsTidy
      | inr k ↦ simp (t, k) failed-IsTidy
    ]
  ]

-- If the configuration that `Load` gives has an accepted bcrypt cost and an issuer, `run` shuts the
-- Vault client down as often as it logs in to Vault, after that stops nothing but the connection to
-- Dgraph, and does not panic.
pub run_tidy :
    {Float : Type 0} (b : Boot Float)
    → ((cfg : Config Float) → b.load ≡ some cfg → IsBootable cfg)
    → (shutdowns (run b).0 ≡ logins (run b).0)
      × (vault_last (run b).0 ≡ true)
      × (crashes (run b).1 ≡ false)
unfolding run IsTidy
run_tidy b boots =
    elim (Bool-cases (is_empty b.vault_config.role_id || is_empty b.vault_config.secret_id)) [
      | inl e ↦ simp e (refl, refl, refl)
      | inr e ↦ elim (Bool-cases b.vault_new) [
        | inr n ↦ simp (e, n) (refl, refl, refl)
        | inl n ↦ elim (Option-cases b.load) [
          | inl l ↦ simp (e, n, l) (unfold configured in (refl, refl, refl))
          | inr (cfg, l) ↦
              let tidy = configured-IsTidy b cfg (boots cfg l) in
              simp (e, n, l) (omega (arith, tidy.0, tidy.1), tidy.2, tidy.3)
        ]
      ]
    ]
