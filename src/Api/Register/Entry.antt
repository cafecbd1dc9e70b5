-- ===== src/Api/Register/Entry.antt =====
-- What a registered request is, and what the client is given for it.
use reach.Api.Register.{
  RegisterRequest, RegisterDraws, RegisterError, Registered, Accepted, validate_client_auth,
  pending_request, admit, new_request, has_long_field, draw, fill, validate_metadata_limits,
  meta_of,
}
use reach.Api.Json.{Fields}
use mathlib.Core.Path.{subst}
use reach.Base.Result.{Result-cases, Result, ok, err}
use reach.Base.Utf8.{trim_space}
use reach.Base.{
  ◌≡◌, refl, ◌⊎◌, inl, inr, true, List, [], ◌∷◌, Option, none, some, length, ltb, Text, same,
  Option-cases, Bool-cases,
}
use reach.Model.Words.{RequestStatus}
use reach.Model.{Request}
use reach.Security.Secrets.{Crypto, hash_secret, verify_secret, verify_secret-hash_secret}
use reach.Store.{Invite}

-- Where no code was given: a pending request without a token.
pub record IsPending (code : Text) (r : Request) (token : Option Text) : Type 0 where
  pub no_code : code ≡ []
  pub pending : r.status ≡ RequestStatus.pending
  pub no_hash : r.setup_token_hash ≡ none
  pub no_token : token ≡ none

-- Where the code was accepted: an approved request, and the token whose hash it has.
pub record IsAdmitted (c : Crypto) (d : RegisterDraws) (code : Text) (invites : List Invite)
    (r : Request) (token : Option Text) : Type 0 where
  pub accepted : Accepted
  pub auth : validate_client_auth c d.god_code_hash d.now code invites ≡ some accepted
  pub approved : r.status ≡ RequestStatus.approved
  pub given : Text
  pub hash : Text
  pub kept : r.setup_token_hash ≡ some hash
  pub told : token ≡ some given
  pub verifies : verify_secret c given hash ≡ true

abbrev pub IsEntry : Crypto → RegisterDraws → Text → List Invite → Request → Option Text → Type 0
IsEntry c d code invites r token = IsPending code r token ⊎ IsAdmitted c d code invites r token

abbrev AdmitSpec :
    Crypto
    → RegisterDraws
    → Text
    → List Invite
    → Request
    → Result RegisterError (Request × Option Text)
    → Type 0
AdmitSpec c d code invites r (err e) = Unit
AdmitSpec c d code invites r (ok (r', token)) =
    IsEntry c d code invites r' token × (r'.client_secret_hash ≡ r.client_secret_hash)

admit_lem :
    (c : Crypto) (d : RegisterDraws) (code : Text) (invites : List Invite) (r : Request)
    → r.status ≡ RequestStatus.pending
    → r.setup_token_hash ≡ none
    → AdmitSpec c d code invites r (admit c d code invites r)
unfolding admit
admit_lem c d [] invites r p n =
    (inl (record { no_code = refl; pending = p; no_hash = n; no_token = refl }), refl)
admit_lem c d (b ∷ code) invites r p n =
    elim (Option-cases (validate_client_auth c d.god_code_hash d.now (b ∷ code) invites)) [
      | inl e ↦ rw (e, admit) tt
      | inr (a, e) ↦ elim (Option-cases d.setup_token) [
        | inl f ↦ rw (e, f, admit) tt
        | inr (token, f) ↦ elim (Option-cases (hash_secret c d.setup_salt token)) [
          | inl g ↦ rw (e, f, g, admit) tt
          | inr (hash, g) ↦
              rw (e, f, g, admit)
                (
                  inr (record {
                    accepted = a;
                    auth = e;
                    approved = refl;
                    given = token;
                    hash = hash;
                    kept = refl;
                    told = refl;
                    verifies = verify_secret-hash_secret c d.setup_salt token g;
                  }),
                  refl,
                )
        ]
      ]
    ]

abbrev pub EntrySpec :
    Crypto
    → RegisterDraws
    → RegisterRequest
    → List Invite
    → Result RegisterError Registered
    → Type 0
EntrySpec c d req invites (err e) = Unit
EntrySpec c d req invites (ok out) =
    (verify_secret c out.client_secret out.request.client_secret_hash ≡ true)
    × IsEntry c d req.auth_code invites out.request out.setup_token

fill_lem :
    (c : Crypto) (marshal : Fields → Text) (d : RegisterDraws) (req : RegisterRequest)
    (invites : List Invite) (secret hash id : Text)
    → verify_secret c secret hash ≡ true
    → EntrySpec c d req invites (fill c marshal d req invites secret hash id)
unfolding fill
fill_lem c marshal d req invites secret hash id v =
    let meta = marshal (meta_of (trim_space req.name) req d.ip) in
    let row = pending_request d id (trim_space req.name) hash meta in
    elim (Bool-cases (ltb 4096 (length meta))) [
      | inl e ↦ rw (e, fill) tt
      | inr e ↦ elim (Result-cases (admit c d req.auth_code invites row)) [
        | inr (x, f) ↦ rw (e, f, fill) tt
        | inl (o, f) ↦
            let (entry, kept) =
              subst (AdmitSpec c d req.auth_code invites row) f
                (admit_lem c d req.auth_code invites row refl refl) in
            rw (e, f, fill) (rw kept v, entry)
      ]
    ]

draw_lem :
    (c : Crypto) (marshal : Fields → Text) (d : RegisterDraws) (req : RegisterRequest)
    (invites : List Invite)
    → EntrySpec c d req invites (draw c marshal d req invites)
unfolding draw
draw_lem c marshal d req invites = elim (Option-cases d.client_secret) [
  | inl e ↦ rw (e, draw) tt
  | inr (secret, e) ↦ elim (Option-cases (hash_secret c d.client_salt secret)) [
    | inl f ↦ rw (e, f, draw) tt
    | inr (hash, f) ↦ elim (Option-cases d.request_id) [
      | inl g ↦ rw (e, f, g, draw) tt
      | inr (id, g) ↦
          simp (e, f, g, draw)
            (fill_lem c marshal d req invites secret hash id
              (verify_secret-hash_secret c d.client_salt secret f))
    ]
  ]
]

-- Where `handleClientRegister` makes a request, its secret's hash accepts the secret that the client
-- gets; and it is pending and without a token where no code was given, or it is approved where
-- `validateClientAuth` has accepted the code, and its token's hash accepts the token that the client
-- gets.
pub new_request_lem :
    (c : Crypto) (marshal : Fields → Text) (d : RegisterDraws) (req : RegisterRequest)
    (invites : List Invite)
    → EntrySpec c d req invites (new_request c marshal d req invites)
unfolding new_request
new_request_lem c marshal d req invites = elim (Bool-cases (same (trim_space req.name) [])) [
  | inl e ↦ rw (e, new_request) tt
  | inr e ↦ elim (Bool-cases (ltb 64 (length (trim_space req.name)))) [
    | inl f ↦ rw (e, f, new_request) tt
    | inr f ↦ elim (Bool-cases (has_long_field req)) [
      | inl g ↦ rw (e, f, g, new_request) tt
      | inr g ↦ elim (Option-cases (validate_metadata_limits marshal req.metadata)) [
        | inl h ↦ rw (e, f, g, h, new_request) (draw_lem c marshal d req invites)
        | inr (x, h) ↦ rw (e, f, g, h, new_request) tt
      ]
    ]
  ]
]
