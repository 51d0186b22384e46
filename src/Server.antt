-- ===== src/Server.antt =====
-- cmd/server/main.go: `run` and `shutdownAll`, by the effects that they have in order. What the calls
-- of other components answer is the record `Boot`.
pub mod Laws
use elysium.Prelude.{
  ℕ, ◌+◌, String, Bool, true, false, not, ◌||◌, Option, none, some, List, [], ◌∷◌, ◌++◌, Text, lit,
  ◌==◌, is_empty, ltb, if◌then◌else◌,
}
use elysium.Domain.User.{ℤ, pos, negsuc}
use elysium.Config.{Config, VaultConfig}
use elysium.Service.Auth.{accepts_cost}
use elysium.Token.Jwt.{accepts_issuer}
use elysium.Vault.Transit.{accepts_key}

-- The effects outside of the process's memory, and the panic of a constructor.
pub data Effect : Type 0 where
  vault_login vault_shutdown : Effect
  dgraph_open dgraph_close : Effect
  schema_applied : ℕ → Effect
  listening http_started grpc_started : Effect
  grpc_graceful_stop grpc_stop http_shutdown : Effect
  panicked : Effect

-- Does `run` return nil, or an error, or has it panicked?
pub data Outcome : Type 0 where
  clean failed crashed : Outcome

-- What ends the wait: an error of a server, or a signal.
pub data Wake : Type 0 where
  server_error signal : Wake

-- `load` is the result of `config.Load`, `schemas` are those of the three applications of a schema, and
-- `grpc_in_time` tells whether the graceful stop of the gRPC server ends before the timeout.
pub record Boot (Float : Type 0) : Type 0 where
  pub vault_config : VaultConfig
  pub vault_new : Bool
  pub load : Option (Config Float)
  pub dgraph_new : Bool
  pub schemas : List Bool
  pub listen : Bool
  pub wake : Wake
  pub grpc_in_time : Bool

-- `shutdownAll`.
unfoldable pub shutdown_all : Bool → List Effect
shutdown_all in_time =
    grpc_graceful_stop
    ∷ http_shutdown
    ∷ (if in_time then vault_shutdown ∷ [] else grpc_stop ∷ vault_shutdown ∷ [])

abbrev pub Run : Type 0
Run = List Effect × Outcome

abbrev pub after : List Effect → Run → Run
after es (fs, o) = (es ++ fs, o)

-- `defer dgraphConn.Close()`: on each return, and in a panic too.
unfoldable pub closing : Run → Run
closing (es, o) = (es ++ dgraph_close ∷ [], o)

-- The end of `run`, once the servers run.
unfoldable pub serve : Wake → Bool → Run
unfolding shutdown_all
serve server_error in_time = (http_started ∷ grpc_started ∷ shutdown_all in_time, failed)
serve signal in_time = (http_started ∷ grpc_started ∷ shutdown_all in_time, clean)

abbrev pub cost_accepted : ℤ → Bool
cost_accepted (pos n) = accepts_cost n
cost_accepted (negsuc n) = false

module _ {Float : Type 0} where
  -- From `token.New` to the start of the servers: `token.New` panics on an empty issuer, and
  -- `service.New` on a low cost.
  unfoldable pub wire : Boot Float → Config Float → Run
  unfolding serve
  wire b cfg =
      if not (accepts_issuer cfg.auth.issuer)
      then (panicked ∷ [], crashed)
      else if not (cost_accepted cfg.auth.bcrypt_cost)
      then (panicked ∷ [], crashed)
      else if not b.listen
      then (vault_shutdown ∷ [], failed)
      else after (listening ∷ []) (serve b.wake b.grpc_in_time)

  -- The applications of the schemas, from the n-th on.
  unfoldable pub apply_schemas : ℕ → List Bool → Boot Float → Config Float → Run
  unfolding wire
  apply_schemas n [] b cfg = wire b cfg
  apply_schemas n (false ∷ rs) b cfg = (vault_shutdown ∷ [], failed)
  apply_schemas n (true ∷ rs) b cfg = after (schema_applied n ∷ []) (apply_schemas (n + 1) rs b cfg)

  unfoldable pub connect : Boot Float → Config Float → Run
  unfolding apply_schemas closing wire
  connect b cfg =
      if not b.dgraph_new
      then (vault_shutdown ∷ [], failed)
      else after (dgraph_open ∷ []) (
          closing (
            if cfg.database.dgraph_apply_schema
            then apply_schemas 0 b.schemas b cfg
            else wire b cfg))

  -- From the choice of the signer on.
  unfoldable pub configured : Boot Float → Option (Config Float) → Run
  unfolding connect
  configured b none = (vault_shutdown ∷ [], failed)
  configured b (some cfg) =
      if not cfg.auth.use_transit
      then (if not (accepts_key cfg.auth.signing_key)
          then (vault_shutdown ∷ [], failed)
          else connect b cfg)
      else connect b cfg

  unfoldable pub run : Boot Float → Run
  unfolding configured
  run b =
      if is_empty b.vault_config.role_id || is_empty b.vault_config.secret_id
      then ([], failed)
      else if not b.vault_new
      then ([], failed)
      else after (vault_login ∷ []) (configured b b.load)

-- `newLogger`: the number of the level, Info for an unknown text.
pub data Level : Type 0 where
  debug info warn error : Level

unfoldable pub log_level : Text → Level
unfolding ◌==◌
log_level t =
    if t == lit "debug"
    then debug
    else if t == lit "warn"
    then warn
    else if t == lit "error"
    then error
    else info

-- `grpcRecoveryInterceptor`: a panic of a handler is answered with an error.
pub data Handled (A : Type 0) : Type 0 where
  returned : Option A → Bool → Handled A
  panics : Handled A

unfoldable pub grpc_recovery : {A : Type 0} → Handled A → Handled A
grpc_recovery (returned resp failed') = returned resp failed'
grpc_recovery panics = returned none true
