-- ===== src/Api/History.antt =====
-- The handlers of requests and the maintenance loop, one call after another.
use reach.Api.Provision.Effect.{provision_client-Follows}
use reach.Api.Provision.{ProvisionRequest, Wanted, provision_client}
use reach.Api.Json.{Fields}
use reach.Api.Register.{
  RegisterDraws, RegisterRequest, Registered, RegisterError, new_request, insert_request, register,
}
use reach.Api.Requests.Lifecycle.{
  goes, goes_trans, evolves, distinct, distinct-evolves, poll-Follows, admin_action-Follows,
  expire_requests-evolves, reaches_refl,
}
use reach.Api.Requests.{Action, Draws, is_request, poll, admin_action, expire_requests}
use reach.Base.Result.{Result, ok, err}
use reach.Base.{
  ℕ, ◌≡◌, refl, inl, inr, Bool, true, false, ◌&&◌, List, [], ◌∷◌, ◌++◌, if◌then◌else◌, Option,
  arith, any, Text, Bool-cases, any-append, same_refl, same_iff,
}
use reach.Model.{Time, Request}
use reach.Provisioner.Create.{Config, Host}
use reach.RateLimit.{RateLimiter, allow}
use reach.Security.Secrets.{Crypto}
use reach.Store.{Db}

-- The rows that were there are there in their places, each as `goes` allows; others may follow them.
unfoldable pub grows : List Request → List Request → Bool
grows [] ys = true
grows (x ∷ xs) (y ∷ ys) = goes x y && grows xs ys
grows (x ∷ xs) [] = false

grows_refl : (xs : List Request) → grows xs xs ≡ true
unfolding grows
grows_refl [] = refl
grows_refl (x ∷ xs) = ground (arith, same_refl x.id, reaches_refl x.status, grows_refl xs)

grows_trans :
    (xs ys zs : List Request) → grows xs ys ≡ true → grows ys zs ≡ true → grows xs zs ≡ true
unfolding grows
grows_trans [] ys zs p q = refl
grows_trans (x ∷ xs) [] zs p q = cc
grows_trans (x ∷ xs) (y ∷ ys) [] p q = cc
grows_trans (x ∷ xs) (y ∷ ys) (z ∷ zs) p q = ground (arith, goes_trans x y z, grows_trans xs ys zs)

evolves-grows : (xs ys : List Request) → evolves xs ys ≡ true → grows xs ys ≡ true
unfolding evolves grows
evolves-grows [] ys e = refl
evolves-grows (x ∷ xs) [] e = cc
evolves-grows (x ∷ xs) (y ∷ ys) e = ground (arith, evolves-grows xs ys)

grows-append : (xs ys : List Request) → grows xs (xs ++ ys) ≡ true
unfolding grows
grows-append [] ys = refl
grows-append (x ∷ xs) ys = ground (arith, same_refl x.id, reaches_refl x.status, grows-append xs ys)

distinct-append :
    (xs : List Request) (r : Request)
    → distinct xs ≡ true
    → any (is_request r.id) xs ≡ false
    → distinct (xs ++ r ∷ []) ≡ true
unfolding distinct
distinct-append [] r d n = refl
distinct-append (x ∷ xs) r d n =
    let rest = distinct-append xs r (ground (arith, d)) (ground (arith, n)) in
    ground (
      arith,
      d,
      n,
      rest,
      any-append (is_request x.id) xs (r ∷ []),
      same_iff x.id r.id,
      same_iff r.id x.id,
    )

-- What a step does to the requests, and that it keeps their key.
record IsStep (db db' : Db) : Type 0 where
  grown : grows db.requests db'.requests ≡ true
  key : distinct db'.requests ≡ true

IsStep-evolves :
    (db db' : Db)
    → distinct db.requests ≡ true
    → evolves db.requests db'.requests ≡ true
    → IsStep db db'
IsStep-evolves db db' u e = record {
  grown = evolves-grows db.requests db'.requests e;
  key = distinct-evolves db.requests db'.requests e u;
}

insert_request-IsStep :
    (out : Result RegisterError Registered) (db : Db)
    → distinct db.requests ≡ true
    → IsStep db (insert_request out db).0
unfolding insert_request
insert_request-IsStep (err e) db u = record { grown = grows_refl db.requests; key = u }
insert_request-IsStep (ok out) db u =
    elim (Bool-cases (any (is_request out.request.id) db.requests)) [
      | inl held ↦ rw held (record { grown = grows_refl db.requests; key = u })
      | inr free ↦ rw free (record {
        grown = grows-append db.requests (out.request ∷ []);
        key = distinct-append db.requests out.request u free;
      })
    ]

either-IsStep :
    {E : Type 0} (db : Db) (counted : Bool) (x : Db × E) (e : E)
    → distinct db.requests ≡ true
    → IsStep db x.0
    → IsStep db (if counted then x else (db, e)).0
either-IsStep db true x e u step = step
either-IsStep db false x e u step = record { grown = grows_refl db.requests; key = u }

-- A call that the server answers, or a round of its maintenance loop.
pub data Call : Type 0 where
  polls : Draws → Text → Text → Call
  acts : Action → Text → Text → Time → Call
  provisions : Host → Option Text → ProvisionRequest → Call
  expires : Time → Call
  registers : (Fields → Text) → RegisterDraws → RegisterRequest → RateLimiter → Call

module _ (c : Crypto) (cfg : Config) (ttl : ℕ) (unmarshal : Text → Option Wanted) where
  unfoldable pub serve : Call → Db → Db
  unfolding poll admin_action provision_client expire_requests register
  serve (polls d id secret) db = (poll c ttl d id secret db).0
  serve (acts a actor id now) db = (admin_action a actor id now db).0
  serve (provisions host admin req) db = (provision_client c cfg host admin unmarshal req db).0
  serve (expires now) db = expire_requests now db
  serve (registers marshal d req limiter) db = (register c marshal d req limiter db).1.0

  unfoldable pub serve_all : List Call → Db → Db
  unfolding serve
  serve_all [] db = db
  serve_all (k ∷ ks) db = serve_all ks (serve k db)

  serve-IsStep : (k : Call) (db : Db) → distinct db.requests ≡ true → IsStep db (serve k db)
  unfolding serve register
  serve-IsStep (polls d id secret) db u =
      IsStep-evolves db _ u (poll-Follows c ttl d id secret db u).rows
  serve-IsStep (acts a actor id now) db u =
      IsStep-evolves db _ u (admin_action-Follows a actor id now db).rows
  serve-IsStep (provisions host admin req) db u =
      IsStep-evolves db _ u (provision_client-Follows c cfg host admin unmarshal req db u).rows
  serve-IsStep (expires now) db u = IsStep-evolves db _ u (expire_requests-evolves now db)
  serve-IsStep (registers marshal d req limiter) db u =
      either-IsStep db (allow d.now d.ip limiter).1 _ _ u
        (insert_request-IsStep (new_request c marshal d req db.invites) db u)

  -- Whatever registrations, polls, decisions of administrators, provisionings and rounds of the
  -- expiry follow one another, each request that the hub has keeps its place and its id, requests
  -- that are new come behind, and a request's status only goes where `reaches` allows: from pending
  -- to any, from approved to approved, provisioning, provisioned or expired, and from no other status
  -- to another. This is where the requests' ids are distinct.
  pub serve_all-grows :
      (ks : List Call) (db : Db)
      → distinct db.requests ≡ true
      → grows db.requests (serve_all ks db).requests ≡ true
  unfolding serve_all
  serve_all-grows [] db u = grows_refl db.requests
  serve_all-grows (k ∷ ks) db u =
      let step = serve-IsStep k db u in
      grows_trans db.requests _ _ step.grown (serve_all-grows ks _ step.key)
