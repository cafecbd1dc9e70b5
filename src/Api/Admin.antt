-- ===== src/Api/Admin.antt =====
-- api.go: the administrators' tokens: login, logout, service tokens and the check in front of every
-- administrator's handler. Signed tokens (JWT) and the hash of a token are other projects' work.
pub mod Blocked
pub mod Logout
use reach.Api.Agents.Messages.{bearer_of}
use reach.Base.Result.{Result, ok, err}
use reach.Base.Utf8.{trim_space}
use reach.Base.{
  ℕ, ◌<◌, ◌≡◌, Bool, true, false, not, ◌&&◌, ◌||◌, List, [], ◌∷◌, ◌++◌, Option, none, some, ltb,
  if◌then◌else◌, any, find, select, update, length, Text, codes, same, has_prefix, trim_prefix,
}
use reach.Model.{Time}
use reach.Security.Secrets.{Crypto, verify_secret}
use reach.Store.{Db, User, ServiceToken, Blacklisted, audit}

pub record Claims : Type 0 where
  pub user_id : Text
  pub username : Text
  pub role : Text
  pub expires_at : Option Time

-- `SignJWT` and `ParseJWT` under the hub's secret, and `TokenHash`. The parser refuses a token from
-- the time of its expiry on, and reads the same expiry at each time.
pub record Tokens : Type 0 where
  pub sign : Time → Text → Text → Text → Option Text
  pub parse : Time → Text → Option Claims
  pub parse_live :
      (now : Time) (token : Text) (c : Claims) (e : Time)
      → parse now token ≡ some c
      → c.expires_at ≡ some e
      → now < e
  pub parse_same :
      (now now' : Time) (token : Text) (c c' : Claims)
      → parse now token ≡ some c
      → parse now' token ≡ some c'
      → c.expires_at ≡ c'.expires_at
  pub token_hash : Text → Text

pub data AuthKind : Type 0 where
  jwt service : AuthKind

unfoldable pub is_jwt : AuthKind → Bool
is_jwt AuthKind.jwt = true
is_jwt AuthKind.service = false

pub data AdminRefusal : Type 0 where
  missing_bearer invalid_token forbidden rate_limited bad_credentials could_not_sign missing_expiry
        not_interactive label_too_long bad_role no_token not_stored :
      AdminRefusal

unfoldable pub admin_role_allowed : Text → Text → Bool
unfolding same
admin_role_allowed role path =
    (same role (codes "owner") || same role (codes "admin"))
    || (same role (codes "mac-agent")
        && (same path (codes "/api/admin/ssh-config")
            || same path (codes "/api/admin/events")
            || same path (codes "/api/admin/logout")))

-- `DELETE FROM jwt_blacklist WHERE expires_at<=?`
abbrev pub purge : Time → List Blacklisted → List Blacklisted
purge now = select (λ b. ltb now b.expires_at)

abbrev pub is_live_token : Text → ServiceToken → Bool
is_live_token hash s = same s.token_hash hash && elim s.revoked_at [ none ↦ true | some _ ↦ false ]

abbrev pub used_row : Time → ServiceToken → ServiceToken
used_row now s = record s { last_used_at = some now }

abbrev pub revoked_row : Time → ServiceToken → ServiceToken
revoked_row now s = record s { revoked_at = some now }

abbrev pub or_word : Text → Text → Text
or_word [] d = d
or_word (c ∷ s) d = c ∷ s

module _ (t : Tokens) where
  unfoldable pub is_jwt_blacklisted : Time → Text → Db → Db × Bool
  unfolding same
  is_jwt_blacklisted now token db =
      let rows = purge now db.blacklist in
      (
        record db { blacklist = rows },
        any (λ b. same b.token_hash (t.token_hash token) && ltb now b.expires_at) rows,
      )

  unfoldable pub blacklist_jwt : Time → Text → Time → Db → Db
  unfolding same
  blacklist_jwt now token expires_at db =
      let hash = t.token_hash token in
      record db {
        blacklist =
            select (λ b. not (same b.token_hash hash)) (purge now db.blacklist)
            ++ record { token_hash = hash; expires_at = expires_at; created_at = now } ∷ [];
      }

  unfoldable pub parse_service_token : Time → Text → Db → Db × Option Claims
  unfolding same
  parse_service_token now token db =
      elim (find (is_live_token (t.token_hash token)) db.service_tokens) [
        | none ↦ (db, none)
        | some s ↦ (
          record db {
            service_tokens = update (λ x. same x.id s.id) (used_row now) db.service_tokens;
          },
          some (record {
            user_id = s.id;
            username = codes "service:" ++ s.label;
            role = s.role;
            expires_at = none;
          }),
        )
      ]

  unfoldable pub revoke_service_token : Time → Text → Db → Db
  unfolding same
  revoke_service_token now token db = record db {
    service_tokens =
        update (is_live_token (t.token_hash token)) (revoked_row now) db.service_tokens;
  }

  abbrev pub by_jwt : Claims → Db × Bool → Db × Option (Claims × AuthKind)
  by_jwt c (db, true) = (db, none)
  by_jwt c (db, false) = (db, some (c, AuthKind.jwt))

  abbrev pub by_service : Db × Option Claims → Db × Option (Claims × AuthKind)
  by_service (db, none) = (db, none)
  by_service (db, some c) = (db, some (c, AuthKind.service))

  unfoldable pub authenticate_admin_token : Time → Text → Db → Db × Option (Claims × AuthKind)
  unfolding is_jwt_blacklisted parse_service_token
  authenticate_admin_token now token db = elim (t.parse now token) [
    | some c ↦ by_jwt c (is_jwt_blacklisted now token db)
    | none ↦ by_service (parse_service_token now token db)
  ]

  -- What the check in front of a handler gives to it.
  pub record Session : Type 0 where
    pub claims : Claims
    pub token : Text
    pub kind : AuthKind

  abbrev pub admitted :
      Text → Text → Db × Option (Claims × AuthKind) → Db × Result AdminRefusal Session
  admitted path token (db, none) = (db, err invalid_token)
  admitted path token (db, some (c, k)) =
      if admin_role_allowed c.role path
      then (db, ok (record { claims = c; token = token; kind = k }))
      else (db, err forbidden)

  -- `admin`
  unfoldable pub admin_session : Time → Text → Text → Db → Db × Result AdminRefusal Session
  unfolding authenticate_admin_token admin_role_allowed bearer_of
  admin_session now authorization path db = elim (bearer_of authorization) [
    | none ↦ (db, err missing_bearer)
    | some token ↦ admitted path token (authenticate_admin_token now token db)
  ]

  abbrev signed : Option Text → Result AdminRefusal Text
  signed none = err could_not_sign
  signed (some token) = ok token

  -- `handleAdminLogin`; the flag is what the limiter of logins answers.
  unfoldable pub admin_login : Crypto → Bool → Time → Text → Text → Db → Result AdminRefusal Text
  unfolding same verify_secret
  admin_login c false now username password db = err rate_limited
  admin_login c true now username password db =
      elim (find (λ u. same u.username username) db.users) [
        | none ↦ err bad_credentials
        | some u ↦
            if verify_secret c password u.password_hash
            then signed (t.sign now u.id u.username u.role)
            else err bad_credentials
      ]

  abbrev pub jwt_logout : Time → Text → Option Time → Db → Db × Result AdminRefusal (Unit {0})
  jwt_logout now token none db = (db, err missing_expiry)
  jwt_logout now token (some e) db = (blacklist_jwt now token e db, ok tt)

  -- `handleAdminLogout` behind the check.
  unfoldable pub log_out : Time → Session → Db → Db × Result AdminRefusal (Unit {0})
  unfolding blacklist_jwt revoke_service_token same is_jwt
  log_out now s db =
      if same s.token []
      then (db, err no_token)
      else if is_jwt s.kind
      then jwt_logout now s.token s.claims.expires_at db
      else (revoke_service_token now s.token db, ok tt)

  abbrev pub then_log_out :
      Time → Db × Result AdminRefusal Session → Db × Result AdminRefusal (Unit {0})
  then_log_out now (db, err e) = (db, err e)
  then_log_out now (db, ok s) = log_out now s db

  unfoldable pub admin_logout : Time → Text → Db → Db × Result AdminRefusal (Unit {0})
  unfolding admin_session log_out
  admin_logout now authorization db =
      then_log_out now (admin_session now authorization (codes "/api/admin/logout") db)

  -- What a new service token is asked for, and what is drawn for it.
  pub record NewToken : Type 0 where
    pub label : Text
    pub role : Text
    pub id : Option Text
    pub token : Option Text

  -- `INSERT INTO service_tokens`, with its keys.
  abbrev pub insert_token :
      Time → Text → Text → Text → Text → Db → Db × Result AdminRefusal (Text × Text)
  insert_token now actor label id token db =
      if any (λ s. same s.id id || same s.token_hash (t.token_hash token)) db.service_tokens
      then (db, err not_stored)
      else (
        audit (codes "service_token.create") actor []
            (codes "id=" ++ (id ++ (codes " label=" ++ (label ++ codes " role=mac-agent")))) now
            (record db {
              service_tokens =
                  db.service_tokens
                  ++ record {
                    id = id;
                    label = label;
                    token_hash = t.token_hash token;
                    role = codes "mac-agent";
                    created_by = actor;
                    created_at = now;
                    last_used_at = none;
                    revoked_at = none;
                  }
                    ∷ [];
            }),
        ok (id, token),
      )

  abbrev pub drawn_token :
      Time → Text → Text → Option Text → Option Text → Db → Db × Result AdminRefusal (Text × Text)
  drawn_token now actor label (some id) (some token) db = insert_token now actor label id token db
  drawn_token now actor label _ _ db = (db, err no_token)

  -- `handleCreateServiceToken` behind the check.
  unfoldable pub create_service_token :
      Time → Session → NewToken → Db → Db × Result AdminRefusal (Text × Text)
  unfolding same is_jwt trim_space
  create_service_token now s n db =
      let label = or_word (trim_space n.label) (codes "reach-mac-agent") in
      let role = or_word (trim_space n.role) (codes "mac-agent") in
      if not (is_jwt s.kind)
      then (db, err not_interactive)
      else if ltb 64 (length label)
      then (db, err label_too_long)
      else if not (same role (codes "mac-agent"))
      then (db, err bad_role)
      else drawn_token now s.claims.username label n.id n.token db

  abbrev pub then_create :
      Time → NewToken → Db × Result AdminRefusal Session → Db × Result AdminRefusal (Text × Text)
  then_create now n (db, err e) = (db, err e)
  then_create now n (db, ok s) = create_service_token now s n db

  unfoldable pub admin_create_token :
      Time → Text → NewToken → Db → Db × Result AdminRefusal (Text × Text)
  unfolding admin_session create_service_token
  admin_create_token now authorization n db =
      then_create now n (admin_session now authorization (codes "/api/admin/service-tokens") db)
