-- ===== src/Api/Admin/Blocked.antt =====
-- api.go: the row that a logout writes stays, as long as its token could live.
use reach.Api.Admin.{
  Claims, Tokens, AuthKind, NewToken, Session, is_jwt, purge, is_jwt_blacklisted, blacklist_jwt,
  parse_service_token, revoke_service_token, authenticate_admin_token, admitted, admin_session,
  log_out, admin_logout, insert_token, drawn_token, create_service_token, admin_create_token,
  is_live_token, by_jwt, by_service, jwt_logout, or_word,
}
use reach.Api.Agents.Messages.{bearer_of}
use reach.Base.Result.{ok, Result-cases}
use reach.Base.{
  ◌≡◌, refl, ap, ◌∙◌, inl, inr, Bool, true, false, not, ◌&&◌, List, [], ◌∷◌, Option, none, some,
  arith, ltb, ◌==◌, any, find, select, Text, codes, same, same_iff, Bool-cases, Option-cases,
  any-select, any-append, any_weaken,
}
use reach.Base.Utf8.{trim_space}
use reach.Model.{Time}
use reach.Store.{Db, Blacklisted}

-- The row that blocks a token until its expiry.
abbrev pub blocks : Text → Time → Blacklisted → Bool
blocks hash e b = same b.token_hash hash && (b.expires_at == e)

-- As long as the token could live, its row is there.
abbrev pub IsBlocked : Text → Time → Time → Db → Type 0
IsBlocked hash e now db = ltb now e ≡ true → any (blocks hash e) db.blacklist ≡ true

pub purge-blocks :
    (hash : Text) (e now : Time) (rows : List Blacklisted)
    → ltb now e ≡ true
    → any (blocks hash e) rows ≡ true
    → any (blocks hash e) (purge now rows) ≡ true
purge-blocks hash e now rows l h =
    any-select (λ b. ltb now b.expires_at) (blocks hash e) rows
    ∙ any_weaken (blocks hash e) (λ b. ltb now b.expires_at && blocks hash e b)
        (λ b q. ground arith) rows h

others_block :
    (hash other : Text) (e : Time) (rows : List Blacklisted)
    → same other hash ≡ false
    → any (blocks hash e) rows ≡ true
    → any (blocks hash e) (select (λ b. not (same b.token_hash other)) rows) ≡ true
others_block hash other e rows d h =
    any-select (λ b. not (same b.token_hash other)) (blocks hash e) rows
    ∙ any_weaken (blocks hash e) (λ b. not (same b.token_hash other) && blocks hash e b)
        (λ b q.
          ground
            (arith, same_iff b.token_hash other, same_iff b.token_hash hash, same_iff other hash))
        rows h

module _ (t : Tokens) where
  parse_service_token_blacklist :
      (now : Time) (token : Text) (db : Db)
      → (parse_service_token t now token db).0.blacklist ≡ db.blacklist
  unfolding parse_service_token
  parse_service_token_blacklist now token db =
      elim (Option-cases (find (is_live_token (t.token_hash token)) db.service_tokens)) [
        | inl e ↦ ground (arith, e)
        | inr (s, e) ↦ ground (arith, e)
      ]

  by_jwt_db : (c : Claims) (out : Db × Bool) → (by_jwt t c out).0 ≡ out.0
  by_jwt_db c (db, true) = refl
  by_jwt_db c (db, false) = refl

  by_service_db : (out : Db × Option Claims) → (by_service t out).0 ≡ out.0
  by_service_db (db, none) = refl
  by_service_db (db, some c) = refl

  authenticate-IsBlocked :
      (hash : Text) (e now : Time) (token : Text) (db : Db)
      → IsBlocked hash e now db
      → IsBlocked hash e now (authenticate_admin_token t now token db).0
  unfolding authenticate_admin_token is_jwt_blacklisted
  authenticate-IsBlocked hash e now token db h l = elim (Option-cases (t.parse now token)) [
    | inl p ↦
        rw (p, authenticate_admin_token)
          (ap (λ d. any (blocks hash e) d.blacklist)
              (by_service_db (parse_service_token t now token db))
            ∙ ap (any (blocks hash e)) (parse_service_token_blacklist now token db)
            ∙ h l)
    | inr (c, p) ↦
        rw (p, authenticate_admin_token)
          (ap (λ d. any (blocks hash e) d.blacklist)
              (by_jwt_db c (is_jwt_blacklisted t now token db))
            ∙ purge-blocks hash e now db.blacklist l (h l))
  ]

  -- A token with the hash of a blocked one is not accepted as a session.
  pub found_blocked :
      (hash : Text) (e now : Time) (token : Text) (db : Db)
      → same (t.token_hash token) hash ≡ true
      → ltb now e ≡ true
      → any (blocks hash e) db.blacklist ≡ true
      → (is_jwt_blacklisted t now token db).1 ≡ true
  unfolding is_jwt_blacklisted
  found_blocked hash e now token db s l h =
      any_weaken (blocks hash e)
        (λ b. same b.token_hash (t.token_hash token) && ltb now b.expires_at)
        (λ b q. ground (
          arith,
          q,
          s,
          l,
          same_iff b.token_hash (t.token_hash token),
          same_iff b.token_hash hash,
          same_iff (t.token_hash token) hash,
        ))
        (purge now db.blacklist) (purge-blocks hash e now db.blacklist l h)

  blacklist_jwt-IsBlocked :
      (hash : Text) (e now : Time) (token : Text) (e' : Time) (db : Db)
      → same (t.token_hash token) hash ≡ false
      → IsBlocked hash e now db
      → IsBlocked hash e now (blacklist_jwt t now token e' db)
  unfolding blacklist_jwt
  blacklist_jwt-IsBlocked hash e now token e' db d h l =
      let other = t.token_hash token in
      let kept = select (λ b. not (same b.token_hash other)) (purge now db.blacklist) in
      ground (
        arith,
        any-append (blocks hash e) kept
            (record { token_hash = other; expires_at = e'; created_at = now } ∷ []),
        others_block hash other e (purge now db.blacklist) d
            (purge-blocks hash e now db.blacklist l (h l)),
      )

  admitted_db :
      (path token : Text) (out : Db × Option (Claims × AuthKind))
      → (admitted t path token out).0 ≡ out.0
  admitted_db path token (db, none) = refl
  admitted_db path token (db, some (c, k)) = ground arith

  pub admin_session-IsBlocked :
      (hash : Text) (e now : Time) (auth path : Text) (db : Db)
      → IsBlocked hash e now db
      → IsBlocked hash e now (admin_session t now auth path db).0
  unfolding admin_session
  admin_session-IsBlocked hash e now auth path db h l = elim (Option-cases (bearer_of auth)) [
    | inl p ↦ rw (p, admin_session) (h l)
    | inr (token, p) ↦
        let out = authenticate_admin_token t now token db in
        rw (p, admin_session)
          (ap (λ d. any (blocks hash e) d.blacklist) (admitted_db path token out)
            ∙ authenticate-IsBlocked hash e now token db h l)
  ]

  pub admitted_fresh :
      (path token : Text) (out : Db × Option (Claims × AuthKind)) (s : Session t)
      → (admitted t path token out).1 ≡ ok s
      → (s.token ≡ token) × (out.1 ≡ some (s.claims, s.kind))
  admitted_fresh path token (db, none) s h = cc
  admitted_fresh path token (db, some (c, k)) s h = (ground (arith, h), ground (arith, h))

  not_blacklisted :
      (now : Time) (token : Text) (db : Db) (c : Claims) (k : AuthKind)
      → (authenticate_admin_token t now token db).1 ≡ some (c, k)
      → is_jwt k ≡ true
      → (t.parse now token ≡ some c) × ((is_jwt_blacklisted t now token db).1 ≡ false)
  unfolding authenticate_admin_token is_jwt
  not_blacklisted now token db c k h j = elim (Option-cases (t.parse now token)) [
    | inl p ↦ elim (Option-cases (parse_service_token t now token db).1) [
      | inl q ↦ absurd (ground (arith, h, p, q))
      | inr (x, q) ↦ absurd (ground (arith, h, p, q, j))
    ]
    | inr (x, p) ↦ elim (Bool-cases (is_jwt_blacklisted t now token db).1) [
      | inl q ↦ absurd (ground (arith, h, p, q))
      | inr q ↦ (ground (arith, h, p, q), q)
    ]
  ]

  other_token :
      (hash : Text) (e now : Time) (token : Text) (db : Db)
      → (is_jwt_blacklisted t now token db).1 ≡ false
      → ltb now e ≡ true
      → any (blocks hash e) db.blacklist ≡ true
      → same (t.token_hash token) hash ≡ false
  other_token hash e now token db fresh l h = elim (Bool-cases (same (t.token_hash token) hash)) [
    | inr s ↦ s
    | inl s ↦ absurd (ground (arith, fresh, found_blocked hash e now token db s l h))
  ]

  -- What a session under a signed token has behind it.
  pub session_fresh :
      (now : Time) (auth path : Text) (db : Db) (s : Session t)
      → (admin_session t now auth path db).1 ≡ ok s
      → is_jwt s.kind ≡ true
      → (bearer_of auth ≡ some s.token)
        × (t.parse now s.token ≡ some s.claims)
        × ((is_jwt_blacklisted t now s.token db).1 ≡ false)
  unfolding admin_session
  session_fresh now auth path db s h j = elim (Option-cases (bearer_of auth)) [
    | inl p ↦ absurd (ground (arith, h, p))
    | inr (token, p) ↦
        let out = authenticate_admin_token t now token db in
        let (same_token, from) = admitted_fresh path token out s (ground (arith, h, p)) in
        let (parsed, fresh) = not_blacklisted now token db s.claims s.kind from j in
        rw same_token (p, parsed, fresh)
  ]

  log_out-IsBlocked :
      (hash : Text) (e now : Time) (s : Session t) (db : Db)
      → (is_jwt s.kind ≡ true → ltb now e ≡ true → same (t.token_hash s.token) hash ≡ false)
      → IsBlocked hash e now db
      → IsBlocked hash e now (log_out t now s db).0
  unfolding log_out revoke_service_token
  log_out-IsBlocked hash e now s db other h l = elim (Bool-cases (same s.token [])) [
    | inl a ↦ rw (a, log_out) (h l)
    | inr a ↦ elim (Bool-cases (is_jwt s.kind)) [
      | inr b ↦ rw (a, b, log_out) (h l)
      | inl b ↦ elim (Option-cases s.claims.expires_at) [
        | inl c ↦ rw (a, b, c, log_out, jwt_logout) (h l)
        | inr (e', c) ↦
            rw (a, b, c, log_out, jwt_logout)
              (blacklist_jwt-IsBlocked hash e now s.token e' db (other b l) h l)
      ]
    ]
  ]

  pub admin_logout-IsBlocked :
      (hash : Text) (e now : Time) (auth : Text) (db : Db)
      → IsBlocked hash e now db
      → IsBlocked hash e now (admin_logout t now auth db).0
  unfolding admin_logout
  admin_logout-IsBlocked hash e now auth db h =
      let path = codes "/api/admin/logout" in
      let out = admin_session t now auth path db in
      let kept = admin_session-IsBlocked hash e now auth path db h in
      elim (Result-cases out.1) [
        | inr (x, r) ↦ λ l. ground (arith, r, kept l)
        | inl (s, r) ↦
            let other : is_jwt s.kind ≡ true
                → ltb now e ≡ true
                → same (t.token_hash s.token) hash ≡ false =
              λ j l.
                other_token hash e now s.token db (session_fresh now auth path db s r j).2 l
                  (h l) in
            λ l. ground (arith, r, log_out-IsBlocked hash e now s out.0 other kept l)
      ]

  insert_token_blacklist :
      (now : Time) (actor label id token : Text) (db : Db)
      → (insert_token t now actor label id token db).0.blacklist ≡ db.blacklist
  insert_token_blacklist now actor label id token db = ground arith

  drawn_token_blacklist :
      (now : Time) (actor label : Text) (id token : Option Text) (db : Db)
      → (drawn_token t now actor label id token db).0.blacklist ≡ db.blacklist
  drawn_token_blacklist now actor label (some id) (some token) db =
      insert_token_blacklist now actor label id token db
  drawn_token_blacklist now actor label none token db = refl
  drawn_token_blacklist now actor label (some id) none db = refl

  create_blacklist :
      (now : Time) (s : Session t) (n : NewToken t) (db : Db)
      → (create_service_token t now s n db).0.blacklist ≡ db.blacklist
  unfolding create_service_token
  create_blacklist now s n db =
      let label = or_word (trim_space n.label) (codes "reach-mac-agent") in
      ground (arith, drawn_token_blacklist now s.claims.username label n.id n.token db)

  pub admin_create-IsBlocked :
      (hash : Text) (e now : Time) (auth : Text) (n : NewToken t) (db : Db)
      → IsBlocked hash e now db
      → IsBlocked hash e now (admin_create_token t now auth n db).0
  unfolding admin_create_token
  admin_create-IsBlocked hash e now auth n db h l =
      let path = codes "/api/admin/service-tokens" in
      let out = admin_session t now auth path db in
      let kept = admin_session-IsBlocked hash e now auth path db h l in
      elim (Result-cases out.1) [
        | inr (x, r) ↦ ground (arith, r, kept)
        | inl (s, r) ↦ ground (arith, r, kept, create_blacklist now s n out.0)
      ]
