-- ===== src/Errors.antt =====
-- Go errors: the sentinel values of internal/domain/user.go, internal/service/session.go and
-- internal/repository/dgraph/session.go, the wrapping of `fmt.Errorf("…: %w", err)`, and
-- `errors.Is`, which unwraps the chain.
use elysium.Prelude.{ℕ, String, Bool, false, nat_eq}

pub data Sentinel : Type 0 where
  user_not_found user_already_exists invalid_credentials invalid_input : Sentinel
  token_expired token_invalid unauthorized rate_limited : Sentinel
  session_not_found session_revoked session_expired refresh_replayed : Sentinel
  refresh_expired session_not_owned refresh_token_replayed : Sentinel

-- Sentinels are compared by identity; the number stands for the address.
abbrev address : Sentinel → ℕ
address user_not_found = 0
address user_already_exists = 1
address invalid_credentials = 2
address invalid_input = 3
address token_expired = 4
address token_invalid = 5
address unauthorized = 6
address rate_limited = 7
address session_not_found = 8
address session_revoked = 9
address session_expired = 10
address refresh_replayed = 11
address refresh_expired = 12
address session_not_owned = 13
address refresh_token_replayed = 14

-- `outside` is an error of code that is not in the repository, or one made by `fmt.Errorf`
-- without `%w`: it is none of the sentinels.
pub data Error : Type 0 where
  sentinel : Sentinel → Error
  outside : String → Error
  wrap : String → Error → Error

-- `errors.Is(err, target)`.
unfoldable pub errors_is : Error → Sentinel → Bool
errors_is (sentinel s) t = nat_eq (address s) (address t)
errors_is (outside m) t = false
errors_is (wrap m e) t = errors_is e t

pub data Result {ℓ} (A : Type ℓ) : Type ℓ where
  ok : A → Result A
  err : Error → Result A
