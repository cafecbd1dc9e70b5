-- ===== src/Api/Admin/Logout.antt =====
-- api.go: a session that has been logged out stays logged out.
use reach.Api.Admin.{
  Claims, Tokens, AdminRefusal, NewToken, Session, is_jwt, purge, is_jwt_blacklisted, blacklist_jwt,
  authenticate_admin_token, admin_session, log_out, admin_logout, admin_create_token,
}
use reach.Api.Admin.Blocked.{
  blocks, IsBlocked, found_blocked, admin_session-IsBlocked, admin_logout-IsBlocked,
  admin_create-IsBlocked, session_fresh, admitted_fresh,
}
use reach.Api.Agents.Messages.{bearer_of}
use reach.Base.Result.{Result, ok, err, Result-cases}
use reach.Base.{
  ◌≤◌, ◌<◌, ◌≡◌, ap, ◌∙◌, inl, inr, Bool, true, false, not, [], ◌∷◌, some, arith, ltb, any, select,
  Text, codes, same, sym, same_refl, Bool-cases, Option-cases, any-append,
}
use reach.Model.{Time}
use reach.Store.{Db, Blacklisted}

module _ (t : Tokens) where
  -- Calls that reach the two tables of tokens, with the time of each.
  pub data Visit : Time → Db → Db → Type 0 where
    visits :
        (now : Time) (auth path : Text) (db : Db)
        → Visit now db (admin_session t now auth path db).0
    logs_out : (now : Time) (auth : Text) (db : Db) → Visit now db (admin_logout t now auth db).0
    creates :
        (now : Time) (auth : Text) (n : NewToken t) (db : Db)
        → Visit now db (admin_create_token t now auth n db).0
    -- A call that leaves the blacklist alone.
    others : (now : Time) (db db' : Db) → db'.blacklist ≡ db.blacklist → Visit now db db'

  -- Calls one after another, from a time on to the time of the last; the clock does not run back.
  pub data Visits : Time → Db → Time → Db → Type 0 where
    none_left : (from : Time) (db : Db) → Visits from db from db
    visit :
        (from now end : Time) (db db1 db2 : Db)
        → from ≤ now
        → Visit now db db1
        → Visits now db1 end db2
        → Visits from db end db2

  Visit-IsBlocked :
      (hash : Text) (e now : Time) (db db' : Db)
      → Visit now db db'
      → IsBlocked hash e now db
      → IsBlocked hash e now db'
  Visit-IsBlocked hash e now db db' (visits _ auth path _) h =
      admin_session-IsBlocked t hash e now auth path db h
  Visit-IsBlocked hash e now db db' (logs_out _ auth _) h =
      admin_logout-IsBlocked t hash e now auth db h
  Visit-IsBlocked hash e now db db' (creates _ auth n _) h =
      admin_create-IsBlocked t hash e now auth n db h
  Visit-IsBlocked hash e now db db' (others _ _ _ q) h = λ l. ap (any (blocks hash e)) q ∙ h l

  later-IsBlocked :
      (hash : Text) (e now later : Time) (db : Db)
      → now ≤ later
      → IsBlocked hash e now db
      → IsBlocked hash e later db
  later-IsBlocked hash e now later db b h l = h (ground arith)

  Visits-IsBlocked :
      (hash : Text) (e from end : Time) (db db' : Db)
      → Visits from db end db'
      → IsBlocked hash e from db
      → IsBlocked hash e end db'
  Visits-IsBlocked hash e from end db db' (none_left _ _) h = h
  Visits-IsBlocked hash e from end db db' (visit _ now _ _ db1 _ b step rest) h =
      Visits-IsBlocked hash e now end db1 db' rest
        (Visit-IsBlocked hash e now db db1 step (later-IsBlocked hash e from now db b h))

  abbrev pub signed_in : Result AdminRefusal (Session t) → Bool
  signed_in (err e) = false
  signed_in (ok s) = is_jwt s.kind

  blacklisted_now :
      (now : Time) (token : Text) (e : Time) (db : Db)
      → any (blocks (t.token_hash token) e) (blacklist_jwt t now token e db).blacklist ≡ true
  unfolding blacklist_jwt
  blacklisted_now now token e db =
      let hash = t.token_hash token in
      let kept = select (λ b. not (same b.token_hash hash)) (purge now db.blacklist) in
      let row : Blacklisted = record { token_hash = hash; expires_at = e; created_at = now } in
      ground (arith, same_refl hash, any-append (blocks hash e) kept (row ∷ []))

  -- What a logout of a signed token has written.
  logout_blocks :
      (now : Time) (token : Text) (s : Session t) (db db1 : Db)
      → s.token ≡ token
      → is_jwt s.kind ≡ true
      → log_out t now s db ≡ (db1, ok tt)
      → (e : Time) × (s.claims.expires_at ≡ some e) × IsBlocked (t.token_hash token) e now db1
  unfolding log_out blacklist_jwt
  logout_blocks now token s db db1 x j h = elim (Bool-cases (same s.token [])) [
    | inl a ↦ absurd (ground (arith, h, a))
    | inr a ↦ elim (Option-cases s.claims.expires_at) [
      | inl b ↦ absurd (ground (arith, h, a, b, j))
      | inr (e, b) ↦
          let stored : db1 ≡ blacklist_jwt t now s.token e db = ground (arith, h, a, b, j) in
          (e, b, λ l. rw (stored, x) (blacklisted_now now token e db))
    ]
  ]

  not_signed_in :
      (later : Time) (auth path : Text) (token : Text) (e : Time) (c : Claims) (now : Time)
      (db : Db)
      → bearer_of auth ≡ some token
      → t.parse now token ≡ some c
      → c.expires_at ≡ some e
      → IsBlocked (t.token_hash token) e later db
      → signed_in (admin_session t later auth path db).1 ≡ false
  not_signed_in later auth path token e c now db b p x h =
      elim (Result-cases (admin_session t later auth path db).1) [
        | inr (q, r) ↦ ground (arith, r)
        | inl (s, r) ↦ elim (Bool-cases (is_jwt s.kind)) [
          | inr j ↦ ground (arith, r, j)
          | inl j ↦
              let (carried, parsed, fresh) = session_fresh t later auth path db s r j in
              let same_token : s.token ≡ token = ground (arith, b, carried) in
              let parsed_token : t.parse later token ≡ some s.claims = rw (← same_token) parsed in
              let expiry : s.claims.expires_at ≡ some e =
                sym (t.parse_same now later token c s.claims p parsed_token) ∙ x in
              let live : later < e = t.parse_live later token s.claims e parsed_token expiry in
              let alive : ltb later e ≡ true = ground arith in
              let found =
                found_blocked t (t.token_hash token) e later token db
                  (same_refl (t.token_hash token)) alive (h alive) in
              let open_still : (is_jwt_blacklisted t later token db).1 ≡ false =
                rw (← same_token) fresh in
              absurd (ground (arith, found, open_still))
        ]
      ]

  -- The session of a token that the parser takes.
  logout_session :
      (now : Time) (auth path token : Text) (c : Claims) (db : Db) (s : Session t)
      → bearer_of auth ≡ some token
      → t.parse now token ≡ some c
      → (admin_session t now auth path db).1 ≡ ok s
      → (s.token ≡ token) × (s.claims ≡ c) × (is_jwt s.kind ≡ true)
  unfolding admin_session authenticate_admin_token is_jwt
  logout_session now auth path token c db s b p r =
      let out = authenticate_admin_token t now token db in
      let (same_token, from) = admitted_fresh t path token out s (ground (arith, b, r)) in
      elim (Bool-cases (is_jwt_blacklisted t now token db).1) [
        | inl q ↦ absurd (ground (arith, p, q, from))
        | inr q ↦ (same_token, ground (arith, p, q, from), ground (arith, p, q, from))
      ]

  -- A signed token that has been logged out is not accepted as a session any more, at no later time,
  -- by no administrator's handler, whatever calls come in between, other logouts included. This is
  -- where the token was one that the parser takes, and the logout was answered without an error.
  pub logged_out :
      (now end later : Time) (auth auth' path token : Text) (c : Claims) (db db1 db2 : Db)
      → bearer_of auth ≡ some token
      → t.parse now token ≡ some c
      → admin_logout t now auth db ≡ (db1, ok tt)
      → Visits now db1 end db2
      → end ≤ later
      → bearer_of auth' ≡ some token
      → signed_in (admin_session t later auth' path db2).1 ≡ false
  unfolding admin_logout
  logged_out now end later auth auth' path token c db db1 db2 b p done run after b' =
      let out = admin_session t now auth (codes "/api/admin/logout") db in
      elim (Result-cases out.1) [
        | inr (q, r) ↦ absurd (ground (arith, done, r))
        | inl (s, r) ↦
            let (same_token, same_claims, j) =
              logout_session now auth (codes "/api/admin/logout") token c db s b p r in
            let stored : log_out t now s out.0 ≡ (db1, ok tt) = ground (arith, done, r) in
            let (e, x, blocked) = logout_blocks now token s out.0 db1 same_token j stored in
            not_signed_in later auth' path token e c now db2 b' p
              (ap (λ k. k.expires_at) (sym same_claims) ∙ x)
              (later-IsBlocked (t.token_hash token) e end later db2 after
                (Visits-IsBlocked (t.token_hash token) e now end db1 db2 run blocked))
      ]
