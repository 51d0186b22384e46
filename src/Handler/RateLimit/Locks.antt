-- ===== src/Handler/RateLimit/Locks.antt =====
-- internal/middleware/middleware.go: `shardedMu` under `getLimiter` and the background cleanup, as a
-- state machine. A channel of capacity one is its token; a call of `getLimiter` holds the token of its
-- shard, and the cleanup takes and gives back the tokens in their order.
use elysium.Prelude.{
  ◌⊎◌, inl, inr, ℕ, suc, ◌+◌, ◌≤◌, ◌<◌, ◌≡◌, ◌≢◌, refl, Bool, true, false, List, [], ◌∷◌, nat_eq,
  ltb, arith, if◌then◌else◌,
}
use elysium.Handler.RateLimit.{shard_count}

-- What the cleanup goroutine does: it waits, has taken the first tokens, sweeps the map, or has given
-- back the first tokens.
pub data Phase : Type 0 where
  waiting sweeping : Phase
  taking giving : ℕ → Phase

-- `tokens s` tells whether the channel of shard `s` is full; `holders` are the shards of the calls of
-- `getLimiter` that are between `mu.lock` and `mu.unlock`.
pub record Locks : Type 0 where
  pub tokens : ℕ → Bool
  pub holders : List ℕ
  pub phase : Phase

unfoldable pub update : (ℕ → Bool) → ℕ → Bool → ℕ → Bool
update f s b t = if nat_eq s t then b else f t

unfoldable pub remove : ℕ → List ℕ → List ℕ
remove s [] = []
remove s (t ∷ ts) = let rest = remove s ts in if nat_eq t s then ts else t ∷ rest

unfoldable pub count : ℕ → List ℕ → ℕ
count s [] = 0
count s (t ∷ ts) = let rest = count s ts in if nat_eq t s then suc rest else rest

-- A receive waits for a token, and a send for room.
pub data Step (l : Locks) : Locks → Type 0 where
  lock :
      (s : ℕ)
      → s < shard_count
      → l.tokens s ≡ true
      → Step l (record l { tokens = update l.tokens s false; holders = s ∷ l.holders })
  unlock :
      (s : ℕ)
      → 0 < count s l.holders
      → l.tokens s ≡ false
      → Step l (record l { tokens = update l.tokens s true; holders = remove s l.holders })
  wake : l.phase ≡ waiting → Step l (record l { phase = taking 0 })
  take :
      (k : ℕ)
      → l.phase ≡ taking k
      → k < shard_count
      → l.tokens k ≡ true
      → Step l (record l { tokens = update l.tokens k false; phase = taking (k + 1) })
  all_taken : l.phase ≡ taking shard_count → Step l (record l { phase = sweeping })
  swept : l.phase ≡ sweeping → Step l (record l { phase = giving 0 })
  give :
      (k : ℕ)
      → l.phase ≡ giving k
      → k < shard_count
      → l.tokens k ≡ false
      → Step l (record l { tokens = update l.tokens k true; phase = giving (k + 1) })
  all_given : l.phase ≡ giving shard_count → Step l (record l { phase = waiting })

pub data Reach (l : Locks) : Locks → Type 0 where
  here : Reach l l
  next : {m n : Locks} → Reach l m → Step m n → Reach l n

-- `newShardedMu(32)`, before any call.
abbrev pub initial : Locks
initial = record { tokens = λ s. true; holders = []; phase = waiting }

-- The cleanup has the token of this shard.
abbrev pub taken : Phase → ℕ → ℕ
taken waiting s = 0
taken sweeping s = 1
taken (taking k) s = if ltb s k then 1 else 0
taken (giving k) s = if ltb s k then 0 else 1

abbrev pub token_count : Bool → ℕ
token_count true = 1
token_count false = 0

-- The token of each shard is in its channel, with one call of `getLimiter`, or with the cleanup.
abbrev pub IsSound : Locks → Type 0
IsSound l =
    (s : ℕ) → s < shard_count → token_count (l.tokens s) + count s l.holders + taken l.phase s ≡ 1

count-remove :
    (s t : ℕ) (ts : List ℕ)
    → 0 < count s ts
    → count t ts ≡ count t (remove s ts) + (if nat_eq s t then 1 else 0)
unfolding count remove
count-remove s t [] h = absurd (omega arith)
count-remove s t (x ∷ ts) h = ground (arith, count-remove s t ts)

initial-IsSound : IsSound initial
unfolding count
initial-IsSound s h = refl

Step-IsSound : {l m : Locks} → Step l m → IsSound l → IsSound m
unfolding update count
Step-IsSound (lock s lt full) h t lt' = let i = h t lt' in ground arith
Step-IsSound {l} (unlock s some_in empty) h t lt' =
    let i = h t lt' in let r = count-remove s t l.holders some_in in ground arith
Step-IsSound (wake p) h t lt' = let i = h t lt' in ground arith
Step-IsSound (take k p lt full) h t lt' = let i = h t lt' in ground arith
Step-IsSound (all_taken p) h t lt' = let i = h t lt' in ground arith
Step-IsSound (swept p) h t lt' = let i = h t lt' in ground arith
Step-IsSound (give k p lt empty) h t lt' = let i = h t lt' in ground arith
Step-IsSound (all_given p) h t lt' = let i = h t lt' in ground arith

Reach-IsSound : {l m : Locks} → IsSound l → Reach l m → IsSound m
Reach-IsSound h here = h
Reach-IsSound h (next r st) = Step-IsSound st (Reach-IsSound h r)

-- In each state that can be reached, two calls of `getLimiter` never hold the same shard, and while the
-- cleanup sweeps the map, no call holds one.
pub sweep_exclusive :
    (l : Locks) (s : ℕ)
    → Reach initial l
    → s < shard_count
    → (count s l.holders ≤ 1) × ((l.phase ≢ sweeping) ⊎ (count s l.holders ≡ 0))
sweep_exclusive l s r lt =
    let i = Reach-IsSound initial-IsSound r s lt in (omega arith, during l.phase i)
  where
    during :
        (p : Phase)
        → token_count (l.tokens s) + count s l.holders + taken p s ≡ 1
        → (p ≢ sweeping) ⊎ (count s l.holders ≡ 0)
    during sweeping i = inr (omega arith)
    during waiting i = inl (λ e. cc)
    during (taking k) i = inl (λ e. cc)
    during (giving k) i = inl (λ e. cc)
