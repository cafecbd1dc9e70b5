-- ===== src/RateLimit.antt =====
-- ratelimit.go: `rateLimiter`, its buckets in memory (`allow`) and as rows of the database
-- (`allowPersistent`). The rows are those of one limiter, and no statement of the transaction fails.
pub mod Window
use reach.Base.{
  ℕ, ◌+◌, ◌-◌, Bool, true, false, not, List, [], ◌∷◌, Option, none, some, ltb, leb, if◌then◌else◌,
  select, Text, same,
}
use reach.Model.{Time}

pub record RateBucket : Type 0 where
  pub count : ℕ
  pub reset : Time

-- `persistent` tells a limiter with a database and a bucket's name, as all of the hub's are; its
-- buckets are the rows of the table under that name.
pub record RateLimiter : Type 0 where
  pub window : ℕ
  pub limit : ℕ
  pub buckets : List (Text × RateBucket)
  pub last_cleanup : Time
  pub persistent : Bool

unfoldable pub lookup : Text → List (Text × RateBucket) → Option RateBucket
lookup key [] = none
lookup key ((k, b) ∷ bs) = if same k key then some b else lookup key bs

unfoldable pub put : Text → RateBucket → List (Text × RateBucket) → List (Text × RateBucket)
put key new [] = (key, new) ∷ []
put key new ((k, b) ∷ bs) = if same k key then (k, new) ∷ bs else (k, b) ∷ put key new bs

-- The buckets that a cleanup leaves, by the test of a bucket's time.
unfoldable pub sweep : (Time → Bool) → List (Text × RateBucket) → List (Text × RateBucket)
sweep gone [] = []
sweep gone ((k, b) ∷ bs) = if gone b.reset then sweep gone bs else (k, b) ∷ sweep gone bs

-- A cleanup, where more than a window has passed since the last one.
abbrev pub clean : (Time → Bool) → Time → RateLimiter → RateLimiter
clean gone now r =
    if ltb r.window (now - r.last_cleanup)
    then record r { buckets = sweep gone r.buckets; last_cleanup = now }
    else r

-- What both do with a key's bucket.
abbrev fresh : Text → Time → RateLimiter → RateLimiter × Bool
fresh key now r =
    (record r { buckets = put key (record { count = 1; reset = now + r.window }) r.buckets }, true)

abbrev pub count_call : Text → Time → Option RateBucket → RateLimiter → RateLimiter × Bool
count_call key now none r = fresh key now r
count_call key now (some b) r =
    if ltb b.reset now
    then fresh key now r
    else if leb r.limit b.count
    then (r, false)
    else (record r { buckets = put key (record b { count = b.count + 1 }) r.buckets }, true)

-- The cleanup's test is `reset_at<=?`.
unfoldable pub allow_persistent : Time → Text → RateLimiter → RateLimiter × Bool
unfolding lookup put sweep
allow_persistent now key r =
    let r1 = clean (λ t. leb t now) now r in count_call key now (lookup key r1.buckets) r1

unfoldable pub allow : Time → Text → RateLimiter → RateLimiter × Bool
unfolding lookup put sweep
allow now key r =
    let persistent = allow_persistent now key r in
    let r1 = clean (λ t. ltb t now) now r in
    if r.persistent then persistent else count_call key now (lookup key r1.buckets) r1
