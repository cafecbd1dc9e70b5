-- ===== src/RateLimit/Window.antt =====
-- ratelimit.go: how many calls a key gets through before its bucket's time is over.
use reach.Base.{
  ℕ, ◌+◌, ◌-◌, ◌≤◌, ◌≡◌, refl, inl, inr, Bool, true, false, ◌&&◌, List, [], ◌∷◌, Option, none, some,
  arith, ltb, leb, if◌then◌else◌, all, Text, same, same_iff, same_refl, Bool-cases,
}
use reach.Model.{Time}
use reach.RateLimit.{
  RateBucket, RateLimiter, lookup, put, sweep, clean, count_call, allow, allow_persistent,
}

lookup-put :
    (key other : Text) (new : RateBucket) (bs : List (Text × RateBucket))
    → lookup key (put other new bs) ≡ (if same other key then some new else lookup key bs)
unfolding lookup put
lookup-put key other new [] = refl
lookup-put key other new ((k, b) ∷ bs) = elim (Bool-cases (same k other)) [
  | inl e ↦ let ko : k ≡ other = (same_iff k other).0 e in rw ko (ground (arith, same_refl other))
  | inr e ↦ elim (Bool-cases (same k key)) [
    | inl f ↦
        let kk : k ≡ key = (same_iff k key).0 f in
        ground (arith, lookup-put key other new bs, e, f, same_iff other key, same_iff k other, kk)
    | inr f ↦ ground (arith, lookup-put key other new bs, e, f)
  ]
]

lookup-sweep :
    (gone : Time → Bool) (key : Text) (bs : List (Text × RateBucket)) {b : RateBucket}
    → lookup key bs ≡ some b
    → gone b.reset ≡ false
    → lookup key (sweep gone bs) ≡ some b
unfolding lookup sweep
lookup-sweep gone key [] {b = b} e g = cc
lookup-sweep gone key ((k, c) ∷ bs) {b = b} e g = elim (Bool-cases (same k key)) [
  | inl f ↦ ground (arith, e, f, g)
  | inr f ↦
      let rest = lookup-sweep gone key bs {b = b} (ground (arith, e, f)) g in
      ground (arith, f, rest)
]

-- One call, and whether it is one of the key's that got through.
abbrev pub got : Text → Text → Bool → ℕ
got key k ok = if same k key && ok then 1 else 0

-- What a call leaves of a key's bucket whose time is not over.
record Counted (key k : Text) (b : RateBucket) (most : ℕ) (out : RateLimiter × Bool) : Type 0 where
  after : RateBucket
  kept : lookup key out.0.buckets ≡ some after
  reset : after.reset ≡ b.reset
  counted : after.count ≡ b.count + got key k out.1
  bound : got key k out.1 ≤ most - b.count
  limit : out.0.limit ≡ most

clean_keeps :
    (gone : Time → Bool) (now : Time) (key : Text) (r : RateLimiter) {b : RateBucket}
    → lookup key r.buckets ≡ some b
    → gone b.reset ≡ false
    → (lookup key (clean gone now r).buckets ≡ some b) × ((clean gone now r).limit ≡ r.limit)
clean_keeps gone now key r {b = b} e g =
    let swept = lookup-sweep gone key r.buckets {b = b} e g in
    elim (Bool-cases (ltb r.window (now - r.last_cleanup))) [
      | inl t ↦ rw (t, clean) (swept, refl)
      | inr t ↦ rw (t, clean) (e, refl)
    ]

-- A call of another key, which leaves the bucket.
other_left :
    (key k : Text) (r r' : RateLimiter) (b : RateBucket) (ok : Bool)
    → same k key ≡ false
    → lookup key r'.buckets ≡ some b
    → r'.limit ≡ r.limit
    → Counted key k b r.limit (r', ok)
other_left key k r r' b ok s e l = record {
  after = b;
  kept = e;
  reset = refl;
  counted = rw s (omega arith);
  bound = rw s (omega arith);
  limit = l;
}

other_put :
    (key k : Text) (r : RateLimiter) (b new : RateBucket)
    → lookup key r.buckets ≡ some b
    → same k key ≡ false
    → Counted key k b r.limit (record r { buckets = put k new r.buckets }, true)
other_put key k r b new e s =
    other_left key k r (record r { buckets = put k new r.buckets }) b true s (rw (lookup-put, s) e)
      refl

other_key :
    (key k : Text) (now : Time) (o : Option RateBucket) (r : RateLimiter) (b : RateBucket)
    → lookup key r.buckets ≡ some b
    → same k key ≡ false
    → Counted key k b r.limit (count_call k now o r)
other_key key k now none r b e s = other_put key k r b _ e s
other_key key k now (some c) r b e s = elim (Bool-cases (ltb c.reset now)) [
  | inl t ↦ rw (t, count_call) (other_put key k r b _ e s)
  | inr t ↦ elim (Bool-cases (leb r.limit c.count)) [
    | inl full ↦ rw (t, full, count_call) (other_left key k r r b false s e refl)
    | inr room ↦ rw (t, room, count_call) (other_put key k r b _ e s)
  ]
]

own_key :
    (key : Text) (now : Time) (r : RateLimiter) (b : RateBucket)
    → lookup key r.buckets ≡ some b
    → ltb b.reset now ≡ false
    → Counted key key b r.limit (count_call key now (some b) r)
own_key key now r b e t = elim (Bool-cases (leb r.limit b.count)) [
  | inl full ↦
      rw (t, full, count_call)
        (record {
          after = b;
          kept = e;
          reset = refl;
          counted = rw (same_refl) (omega arith);
          bound = rw (same_refl) (omega arith);
          limit = refl;
        })
  | inr room ↦
      rw (t, room, count_call)
        (record {
          after = record b { count = b.count + 1 };
          kept = rw (lookup-put, same_refl) refl;
          reset = refl;
          counted = rw (same_refl) refl;
          bound = rw (same_refl) (ground arith);
          limit = refl;
        })
]

count_call-Counted :
    (key k : Text) (now : Time) (r : RateLimiter) (b : RateBucket) (most : ℕ)
    → lookup key r.buckets ≡ some b
    → r.limit ≡ most
    → ltb b.reset now ≡ false
    → Counted key k b most (count_call k now (lookup k r.buckets) r)
count_call-Counted key k now r b most e l t = elim (Bool-cases (same k key)) [
  | inl s ↦ rw (← l, (same_iff k key).0 s, e) (own_key key now r b e t)
  | inr s ↦ rw (← l) (other_key key k now (lookup k r.buckets) r b e s)
]

clean-Counted :
    (gone : Time → Bool) (key k : Text) (now : Time) (r : RateLimiter) (b : RateBucket)
    → lookup key r.buckets ≡ some b
    → gone b.reset ≡ false
    → ltb b.reset now ≡ false
    → Counted key k b r.limit
        (count_call k now (lookup k (clean gone now r).buckets) (clean gone now r))
clean-Counted gone key k now r b e g t =
    let (kept, left) = clean_keeps gone now key r {b = b} e g in
    count_call-Counted key k now (clean gone now r) b r.limit kept left t

either-Counted :
    (key k : Text) (b : RateBucket) (most : ℕ) (p : Bool) {x y : RateLimiter × Bool}
    → Counted key k b most x
    → Counted key k b most y
    → Counted key k b most (if p then x else y)
either-Counted key k b most true x y = x
either-Counted key k b most false x y = y

allow-Counted :
    (key k : Text) (now : Time) (r : RateLimiter) (b : RateBucket)
    → lookup key r.buckets ≡ some b
    → ltb now b.reset ≡ true
    → Counted key k b r.limit (allow now k r)
unfolding allow allow_persistent
allow-Counted key k now r b e t =
    let early : ltb b.reset now ≡ false = ground arith in
    either-Counted key k b r.limit r.persistent
      (clean-Counted (λ x. leb x now) key k now r b e (ground arith) early)
      (clean-Counted (λ x. ltb x now) key k now r b e early early)

-- The calls of a key that `allow` lets through, of a run of calls.
unfoldable pub allowed : Text → List (Time × Text) → RateLimiter → ℕ
unfolding allow
allowed key [] r = 0
allowed key ((now, k) ∷ cs) r = let out = allow now k r in got key k out.1 + allowed key cs out.0

-- Before the time of a key's bucket has come, `allow` lets no more calls of this key through than its
-- limit has left above the bucket's count, however many calls come and whatever other keys do. This
-- holds of a limiter that keeps its buckets in the database and of one that keeps them in memory.
pub allowed-le :
    (key : Text) (cs : List (Time × Text)) (r : RateLimiter) (b : RateBucket)
    → lookup key r.buckets ≡ some b
    → all (λ c. ltb c.0 b.reset) cs ≡ true
    → allowed key cs r ≤ r.limit - b.count
unfolding allowed
allowed-le key [] r b e h = omega arith
allowed-le key ((now, k) ∷ cs) r b e h =
    let step = allow-Counted key k now r b e (ground (arith, h)) in
    let rest =
      allowed-le key cs (allow now k r).0 step.after step.kept
        (rw step.reset (ground (arith, h))) in
    omega (arith, rest, step.bound, step.counted, step.limit)
