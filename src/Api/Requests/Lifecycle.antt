-- ===== src/Api/Requests/Lifecycle.antt =====
-- How a request's status moves under the handlers and `ExpireOnce`, one after another.
use reach.Api.Requests.{
  Action, approve, deny, other, Draws, is_request, set_status, lacks_token, with_token, drawn_hash,
  issue, answer_poll, poll, is_waiting, decide_request, admin_action, takes_token, consumed_row,
  take_token, consume_setup_token, is_stale, has_stale_token, expire_requests,
}
use reach.Base.{
  ℕ, ◌+◌, ◌≡◌, refl, inl, inr, Bool, true, false, not, ◌&&◌, List, [], ◌∷◌, some, arith, any, find,
  update, Text, same, same_iff, same_refl, Bool-cases, Option-cases,
}
use reach.Model.Words.{RequestStatus, is_pending, is_approved}
use reach.Model.{Request, Time}
use reach.Security.Secrets.{Crypto}
use reach.Store.{Db}
use reach.Store.Laws.{update_none}

-- The statuses that a request can have later.
unfoldable pub reaches : RequestStatus → RequestStatus → Bool
reaches RequestStatus.pending _ = true
reaches RequestStatus.approved RequestStatus.pending = false
reaches RequestStatus.approved RequestStatus.denied = false
reaches RequestStatus.approved _ = true
reaches RequestStatus.provisioning RequestStatus.provisioning = true
reaches RequestStatus.denied RequestStatus.denied = true
reaches RequestStatus.expired RequestStatus.expired = true
reaches RequestStatus.provisioned RequestStatus.provisioned = true
reaches _ _ = false

pub reaches_refl : (s : RequestStatus) → reaches s s ≡ true
unfolding reaches
reaches_refl s = ground arith

pub reaches_trans :
    (s t u : RequestStatus) → reaches s t ≡ true → reaches t u ≡ true → reaches s u ≡ true
unfolding reaches
reaches_trans s t u p q = ground arith

abbrev pub goes : Request → Request → Bool
goes r r' = same r.id r'.id && reaches r.status r'.status

-- The rows of a table later: the same requests in the same places.
unfoldable pub evolves : List Request → List Request → Bool
evolves [] [] = true
evolves (x ∷ xs) (y ∷ ys) = goes x y && evolves xs ys
evolves _ _ = false

pub goes_trans : (x y z : Request) → goes x y ≡ true → goes y z ≡ true → goes x z ≡ true
goes_trans x y z p q = ground (arith, reaches_trans x.status y.status z.status, same_iff x.id y.id)

pub evolves_refl : (xs : List Request) → evolves xs xs ≡ true
unfolding evolves
evolves_refl [] = refl
evolves_refl (x ∷ xs) = rw (same_refl, reaches_refl) (evolves_refl xs)

pub evolves_trans :
    (xs ys zs : List Request) → evolves xs ys ≡ true → evolves ys zs ≡ true → evolves xs zs ≡ true
unfolding evolves
evolves_trans [] [] zs p q = q
evolves_trans [] (y ∷ ys) zs p q = cc
evolves_trans (x ∷ xs) [] zs p q = cc
evolves_trans (x ∷ xs) (y ∷ ys) [] p q = cc
evolves_trans (x ∷ xs) (y ∷ ys) (z ∷ zs) p q =
    ground (arith, goes_trans x y z, evolves_trans xs ys zs)

goes_refl : (x : Request) → goes x x ≡ true
goes_refl x = rw (same_refl) (reaches_refl x.status)

-- An UPDATE that takes each row that it changes along an edge.
pub evolves-update :
    (p : Request → Bool) (f : Request → Request)
    → ((r : Request) → p r ≡ true → goes r (f r) ≡ true)
    → (xs : List Request) → evolves xs (update p f xs) ≡ true
unfolding evolves
evolves-update p f h [] = refl
evolves-update p f h (x ∷ xs) =
    ground (arith, h x, evolves-update p f h xs, same_refl x.id, reaches_refl x.status)

-- `PRIMARY KEY`
unfoldable pub distinct : List Request → Bool
distinct [] = true
distinct (r ∷ rs) = not (any (is_request r.id) rs) && distinct rs

any-evolves :
    (id : Text) (xs ys : List Request)
    → evolves xs ys ≡ true
    → any (is_request id) ys ≡ any (is_request id) xs
unfolding evolves
any-evolves id [] [] e = refl
any-evolves id [] (y ∷ ys) e = cc
any-evolves id (x ∷ xs) [] e = cc
any-evolves id (x ∷ xs) (y ∷ ys) e =
    let xy : x.id ≡ y.id = (same_iff x.id y.id).0 (ground arith) in
    let rest = any-evolves id xs ys (ground arith) in rw (xy, rest) refl

pub distinct-evolves :
    (xs ys : List Request) → evolves xs ys ≡ true → distinct xs ≡ true → distinct ys ≡ true
unfolding evolves distinct
distinct-evolves [] [] e d = refl
distinct-evolves [] (y ∷ ys) e d = cc
distinct-evolves (x ∷ xs) [] e d = cc
distinct-evolves (x ∷ xs) (y ∷ ys) e d =
    let xy : x.id ≡ y.id = (same_iff x.id y.id).0 (ground arith) in
    let rest = any-evolves y.id xs ys (ground arith) in
    let d' : (not (any (is_request y.id) xs) && distinct xs) ≡ true = rw (← xy) d in
    ground (arith, rest, distinct-evolves xs ys)

-- An UPDATE by an id changes no row but the one that a SELECT by this id finds.
pub update-found :
    (id : Text) (f : Request → Request) (rs : List Request) {r : Request}
    → distinct rs ≡ true
    → find (is_request id) rs ≡ some r
    → goes r (f r) ≡ true
    → evolves rs (update (is_request id) f rs) ≡ true
unfolding distinct evolves
update-found id f [] {r = r} d e g = cc
update-found id f (x ∷ xs) {r = r} d e g = elim (Bool-cases (same x.id id)) [
  | inl h ↦
      let xi : x.id ≡ id = (same_iff x.id id).0 h in
      let none_left : any (is_request id) xs ≡ false = rw (← xi) (ground arith) in
      let kept = update_none (is_request id) f xs none_left in ground (arith, kept, evolves_refl xs)
  | inr h ↦
      let rest = update-found id f xs {r = r} (ground arith) (ground arith) g in
      ground (arith, goes_refl x, rest)
]

-- The requests behind an outcome are those before it, later.
pub record Follows {R : Type 0} (db : Db) (out : Db × R) : Type 0 where
  pub rows : evolves db.requests out.0.requests ≡ true

pub same-Follows : {R : Type 0} (db : Db) (r : R) → Follows db (db, r)
same-Follows db r = record { rows = evolves_refl db.requests }

pub issue-Follows :
    (c : Crypto) (ttl : ℕ) (d : Draws) (id : Text) (db : Db) → Follows db (issue c ttl d id db)
unfolding issue
issue-Follows c ttl d id db = elim (Option-cases (drawn_hash c d)) [
  | inl e ↦ rw (e, issue) (same-Follows db _)
  | inr (p, e) ↦
      rw (e, issue)
        (record {
          rows =
              evolves-update (λ r. is_request id r && lacks_token r) (with_token p.1 (d.now + ttl))
                (λ r _. rw (same_refl) (reaches_refl r.status)) db.requests;
        })
]

decide_request-Follows :
    (action event : Text) (row : Request → Request) (s : RequestStatus) (actor id : Text)
    (now : Time) (db : Db)
    → ((r : Request) → is_pending r.status ≡ true → goes r (row r) ≡ true)
    → Follows db (decide_request action event row s actor id now db)
unfolding decide_request
decide_request-Follows action event row s actor id now db h =
    let changed = evolves-update (is_waiting id) row (λ r w. h r (ground arith)) db.requests in
    record { rows = ground (arith, changed, evolves_refl db.requests) }

pub admin_action-Follows :
    (a : Action) (actor id : Text) (now : Time) (db : Db)
    → Follows db (admin_action a actor id now db)
unfolding admin_action reaches is_pending
admin_action-Follows approve actor id now db =
    decide_request-Follows _ _ _ _ actor id now db (λ r p. ground (arith, same_refl r.id))
admin_action-Follows deny actor id now db =
    decide_request-Follows _ _ _ _ actor id now db (λ r p. ground (arith, same_refl r.id))
admin_action-Follows other actor id now db = same-Follows db _

pub expire_requests-evolves :
    (now : Time) (db : Db) → evolves db.requests (expire_requests now db).requests ≡ true
unfolding expire_requests reaches is_pending is_approved
expire_requests-evolves now db =
    evolves_trans db.requests _ _
      (evolves-update (is_stale now) (set_status RequestStatus.expired)
        (λ r p. ground (arith, same_refl r.id)) db.requests)
      (evolves-update (has_stale_token now) (set_status RequestStatus.expired)
        (λ r p. ground (arith, same_refl r.id)) _)

take_token-Follows :
    (c : Crypto) (now : Time) (id : Text) (r : Request) (token : Text) (db : Db)
    → Follows db (take_token c now id r token db)
unfolding take_token reaches is_approved
take_token-Follows c now id r token db = elim (Option-cases r.setup_token_hash) [
  | inl e ↦ rw (e, take_token) (same-Follows db _)
  | inr (h, e) ↦
      let taken =
        evolves-update (takes_token id h) consumed_row (λ r p. ground (arith, same_refl r.id))
          db.requests in
      rw (e, take_token) (record { rows = ground (arith, taken, evolves_refl db.requests) })
]

pub consume_setup_token-Follows :
    (c : Crypto) (now : Time) (id token : Text) (db : Db)
    → Follows db (consume_setup_token c now id token db)
unfolding consume_setup_token
consume_setup_token-Follows c now id token db =
    elim (Option-cases (find (is_request id) db.requests)) [
      | inl e ↦ rw (e, consume_setup_token) (same-Follows db _)
      | inr (r, e) ↦ rw (e, consume_setup_token) (take_token-Follows c now id r token db)
    ]

answer_poll-Follows :
    (c : Crypto) (ttl : ℕ) (d : Draws) (id : Text) (r : Request) (secret : Text) (db : Db)
    → distinct db.requests ≡ true
    → find (is_request id) db.requests ≡ some r
    → Follows db (answer_poll c ttl d id r secret db)
unfolding answer_poll reaches is_pending
answer_poll-Follows c ttl d id r secret db u f =
    let expired = λ (late : is_pending r.status ≡ true).
      update-found id (set_status RequestStatus.expired) db.requests u f
        (ground (arith, same_refl r.id)) in
    let issued = (issue-Follows c ttl d id db).rows in
    record { rows = ground (arith, expired, issued, evolves_refl db.requests) }

pub poll-Follows :
    (c : Crypto) (ttl : ℕ) (d : Draws) (id secret : Text) (db : Db)
    → distinct db.requests ≡ true
    → Follows db (poll c ttl d id secret db)
unfolding poll
poll-Follows c ttl d id secret db u = elim (Option-cases (find (is_request id) db.requests)) [
  | inl e ↦ rw (e, poll) (same-Follows db _)
  | inr (r, e) ↦ rw (e, poll) (answer_poll-Follows c ttl d id r secret db u e)
]
