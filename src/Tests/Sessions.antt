-- ===== src/Tests/Sessions.antt =====
-- A session that is logged out, with tokens of the least kind: a token is its own hash, and lives
-- until 1000.
use reach.Api.Admin.Logout.{Visits, visits, none_left, signed_in, logged_out}
use reach.Api.Admin.{Claims, Tokens, admin_session, admin_logout}
use reach.Base.{
  ◌<◌, ◌≡◌, refl, inl, inr, false, Option, none, some, arith, ltb, if◌then◌else◌, Bool-cases, Text,
  codes, same,
}
use reach.Model.{Time}
use reach.Store.{Db}
use reach.Tests.Data.{db}

abbrev ann : Claims
ann = record {
  user_id = codes "u_1";
  username = codes "ann";
  role = codes "admin";
  expires_at = some 1000;
}

abbrev read : Time → Text → Option Claims
read now token = if ltb now 1000 then some ann else none

read_live :
    (now : Time) (token : Text) (c : Claims) (e : Time)
    → read now token ≡ some c
    → c.expires_at ≡ some e
    → now < e
read_live now token c e p x = elim (Bool-cases (ltb now 1000)) [
  | inl l ↦ ground (arith, p, x, l)
  | inr l ↦ absurd (ground (arith, p, l))
]

read_same :
    (now now' : Time) (token : Text) (c c' : Claims)
    → read now token ≡ some c
    → read now' token ≡ some c'
    → c.expires_at ≡ c'.expires_at
read_same now now' token c c' p q = elim (Bool-cases (ltb now 1000)) [
  | inr l ↦ absurd (ground (arith, p, l))
  | inl l ↦ elim (Bool-cases (ltb now' 1000)) [
    | inr k ↦ absurd (ground (arith, q, k))
    | inl k ↦ ground (arith, p, q, l, k)
  ]
]

abbrev tokens : Tokens
tokens = record {
  sign = λ now id name role. some (codes "jwt");
  parse = read;
  parse_live = read_live;
  parse_same = read_same;
  token_hash = λ token. token;
}

abbrev header : Text
header = codes "Bearer jwt"

abbrev out_db : Db
out_db = (admin_logout tokens 100 header db).0

abbrev later_db : Db
later_db = (admin_session tokens 200 (codes "Bearer other") (codes "/api/admin/machines") out_db).0

logged_out_example :
    signed_in tokens (admin_session tokens 300 header (codes "/api/admin/machines") later_db).1
    ≡ false
unfolding admin_logout same
logged_out_example =
    logged_out tokens 100 200 300 header header (codes "/api/admin/machines") (codes "jwt") ann db
      out_db later_db refl refl refl
      (Visits.visit 100 200 200 out_db later_db later_db (omega arith)
        (visits 200 (codes "Bearer other") (codes "/api/admin/machines") out_db)
        (none_left 200 later_db))
      (omega arith) refl
