-- ===== src/Handler/RateLimit.antt =====
-- internal/middleware/middleware.go: `RateLimiter` with its map of clients, `shardedMu`, and the
-- middleware that sets headers and records the status. The limiter of golang.org/x/time/rate is a
-- parameter.
pub mod Laws
pub mod Locks
use elysium.Prelude.{
  ℕ, ◌+◌, ◌-◌, ◌*◌, ◌/◌, ◌%◌, ◌^◌, String, Bool, true, false, Option, none, some, List, [], ◌∷◌,
  ◌++◌, Text, lit, ◌==◌, ltb, if◌then◌else◌,
}
use elysium.Domain.Session.{second}
use elysium.Handler.Middleware.{Request, Response, respond, panic, error, untouched}

-- `rate.NewLimiter(rps, burst)`, and `Allow()` at a time, which changes the limiter.
pub record Rate (Limiter : Type 0) : Type 0 where
  pub new_limiter : Limiter
  pub allow : Limiter → ℕ → Bool × Limiter

pub record Client (Limiter : Type 0) : Type 0 where
  pub limiter : Limiter
  pub last_seen : ℕ

-- The map `clients`.
abbrev pub Clients : Type 0 → Type 0
Clients Limiter = List (Text × Client Limiter)

-- `5*time.Minute`.
abbrev pub idle_limit : ℕ
idle_limit = 5 * 60 * second

module _ {Limiter : Type 0} where
  unfoldable pub client_of : Text → Clients Limiter → Option (Client Limiter)
  client_of ip [] = none
  client_of ip ((k, c) ∷ cs) = if k == ip then some c else client_of ip cs

  unfoldable pub store : Text → Client Limiter → Clients Limiter → Clients Limiter
  store ip c [] = (ip, c) ∷ []
  store ip c ((k, d) ∷ cs) = if k == ip then (k, c) ∷ cs else (k, d) ∷ store ip c cs

  -- One round of the background cleanup, at the time `now`.
  unfoldable pub cleanup : ℕ → Clients Limiter → Clients Limiter
  cleanup now [] = []
  cleanup now ((k, c) ∷ cs) =
      let rest = cleanup now cs in
      if ltb idle_limit (now - c.last_seen) then rest else (k, c) ∷ rest

  module _ (rate : Rate Limiter) where
    -- The limiter that `getLimiter` finds or makes.
    unfoldable pub limiter_of : Option (Client Limiter) → Limiter
    limiter_of none = rate.new_limiter
    limiter_of (some c) = c.limiter

    unfoldable pub get_limiter : Text → ℕ → Clients Limiter → Limiter × Clients Limiter
    unfolding limiter_of client_of store
    get_limiter ip now cs = (
      limiter_of (client_of ip cs),
      store ip (record { limiter = limiter_of (client_of ip cs); last_seen = now }) cs,
    )

    -- `getLimiter(ip).Allow()`: the limiter is shared with the map.
    unfoldable pub allowed : Text → ℕ → ℕ → Clients Limiter → Bool × Clients Limiter
    unfolding get_limiter
    allowed ip now now' cs =
        let r = rate.allow (get_limiter ip now cs).0 now' in
        (r.0, store ip (record { limiter = r.1; last_seen = now }) (get_limiter ip now cs).1)

-- The answer of `RateLimiter` to a request that is over the limit.
abbrev pub limited : Response
limited = respond 429 (error "rate limit exceeded") untouched (("Retry-After", lit "1") ∷ [])

-- `newShardedMu(32)`.
abbrev pub shard_count : ℕ
shard_count = 32

-- The int64 `h*31 + int(c)`, by its 64 bits.
unfoldable pub shard_hash : ℕ → Text → ℕ
shard_hash h [] = h
shard_hash h (c ∷ cs) = shard_hash ((h * 31 + c) % 2 ^ 64) cs

-- `idx := h % s.n; if idx < 0 { idx = -idx }`, where Go's remainder has the sign of `h`.
unfoldable pub shard_index : ℕ → ℕ → ℕ
shard_index n h = if ltb h (2 ^ 63) then h % n else (2 ^ 64 - h) % n

-- `shard` for a key of ASCII characters.
unfoldable pub shard : ℕ → Text → ℕ
unfolding shard_hash shard_index
shard n key = shard_index n (shard_hash 0 key)

-- `SecurityHeaders`: the headers that it sets before the handler runs.
abbrev pub security_headers : List (String × Text)
security_headers =
    ("X-Content-Type-Options", lit "nosniff")
    ∷ ("X-Frame-Options", lit "DENY")
    ∷ ("Referrer-Policy", lit "strict-origin-when-cross-origin")
    ∷ ("Content-Security-Policy", lit "default-src 'none'")
    ∷ []

unfoldable pub secured : Response → Response
secured (respond code body cookie headers) = respond code body cookie (security_headers ++ headers)
secured panic = panic

-- `responseWriter` of `RequestLogger`: the status that is logged.
pub record ResponseWriter : Type 0 where
  pub status : ℕ
  pub written : Bool

unfoldable pub write_header : ℕ → ResponseWriter → ResponseWriter
write_header code rw' = if rw'.written then rw' else record { status = code; written = true }

unfoldable pub write_headers : List ℕ → ResponseWriter → ResponseWriter
unfolding write_header
write_headers [] rw' = rw'
write_headers (code ∷ codes) rw' = write_headers codes (write_header code rw')

abbrev pub logged_writer : ResponseWriter
logged_writer = record { status = 200; written = false }
