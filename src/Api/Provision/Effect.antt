-- ===== src/Api/Provision/Effect.antt =====
-- What `handleClientProvision` does to the requests.
use reach.Api.Provision.{
  ProvisionRequest, Wanted, to_input, is_being_provisioned, settle, create_for, after_consume,
  provision_client,
}
use reach.Api.Requests.Lifecycle.{
  reaches, reaches_refl, goes, evolves, evolves_refl, evolves-update, distinct, Follows,
  consume_setup_token-Follows,
}
use reach.Api.Requests.Tokens.{Consumed, consume_setup_token-ok}
use reach.Api.Requests.{
  is_request, set_status, takes_token, consumed_row, ConsumeError, consume_setup_token,
}
use reach.Base.Result.{Result, ok, err, Result-cases}
use reach.Base.{
  ℕ, ◌≡◌, refl, sym, ap, ◌∙◌, inl, inr, Bool, true, false, not, ◌||◌, List, [], ◌∷◌, Option, some,
  arith, if◌then◌else◌, any, all, find, update, ◌++◌, Text, codes, same, same_iff, same_refl,
  Bool-cases, Option-cases,
}
use reach.Model.Words.{RequestStatus, is_approved, is_provisioning}
use reach.Model.{Machine, Hub, Tunnel, Request}
use reach.Provisioner.Create.{
  CreateError, CreateMachineInput, CreateMachineResult, Config, Host, check_input, create_machine,
  insert_and_provision, insert_rows, new_machine, new_tunnel, provision, complete, with_defaults,
}
use reach.Provisioner.Ports.{allocate_port}
use reach.Security.Secrets.{Crypto}
use reach.Security.Slug.{valid_slug, normalize_slug}
use reach.Store.{Db}

provision-requests :
    (cfg : Config) (host : Host) (hub : Hub) (token : Text) (port : ℕ) (m : Machine) (t : Tunnel)
    (db : Db)
    → (provision cfg host hub token port m t db).0.requests ≡ db.requests
unfolding provision complete
provision-requests cfg host hub token port m t db = ground arith

insert_rows-requests :
    (m : Machine) (t : Tunnel) (db : Db) {db' : Db}
    → insert_rows m t db ≡ some db'
    → db'.requests ≡ db.requests
unfolding insert_rows
insert_rows-requests m t db e = ground arith

insert_and_provision-requests :
    (cfg : Config) (host : Host) (input : CreateMachineInput) (m t short token hash : Text)
    (db : Db)
    → (insert_and_provision cfg host input m t short token hash db).0.requests ≡ db.requests
unfolding insert_and_provision
insert_and_provision-requests cfg host input m t short token hash db =
    elim (Option-cases (find (λ h. same h.id input.hub_id) db.hubs)) [
      | inl e ↦ rw (e, insert_and_provision) refl
      | inr (hub, e) ↦ elim (Option-cases (allocate_port host.listening db.tunnels hub)) [
        | inl f ↦ rw (e, f, insert_and_provision) refl
        | inr (port, f) ↦
            let row = new_machine input m hash host.now in
            let tunnel = new_tunnel input t m hub (codes "rt-" ++ short) port host.now in
            elim (Option-cases (insert_rows row tunnel db)) [
              | inl g ↦ rw (e, f, g, insert_and_provision) refl
              | inr (db', g) ↦
                  rw (e, f, g, insert_and_provision)
                    (provision-requests cfg host hub token port row tunnel db'
                      ∙ insert_rows-requests row tunnel db g)
            ]
      ]
    ]

-- `CreateMachine` leaves the requests alone.
pub create_machine-requests :
    (c : Crypto) (cfg : Config) (host : Host) (input : CreateMachineInput) (db : Db)
    → (create_machine c cfg host input db).0.requests ≡ db.requests
unfolding create_machine
create_machine-requests c cfg host input db = elim (Result-cases (check_input c host input)) [
  | inr (e, h) ↦ rw (h, create_machine) refl
  | inl (t, h) ↦
      rw (h, create_machine)
        (insert_and_provision-requests cfg host (with_defaults cfg host.now input) t.0 t.1 t.2 t.3
          t.4 db)
]

-- A request of this id is approved.
abbrev owned : Text → Request → Bool
owned id r = not (is_request id r) || is_approved r.status

any_request :
    (id h : Text) (rs : List Request)
    → any (takes_token id h) rs ≡ true
    → any (is_request id) rs ≡ true
any_request id h [] e = cc
any_request id h (x ∷ xs) e = ground (arith, any_request id h xs)

none_owned :
    (id : Text) (rs : List Request) → any (is_request id) rs ≡ false → all (owned id) rs ≡ true
none_owned id [] e = refl
none_owned id (x ∷ xs) e = ground (arith, none_owned id xs)

all-owned :
    (id h : Text) (rs : List Request)
    → distinct rs ≡ true
    → any (takes_token id h) rs ≡ true
    → all (owned id) rs ≡ true
unfolding distinct
all-owned id h [] d e = refl
all-owned id h (x ∷ xs) d e = elim (Bool-cases (same x.id id)) [
  | inl s ↦
      let xi : x.id ≡ id = (same_iff x.id id).0 s in
      let none_left : any (is_request id) xs ≡ false = rw (← xi) (ground arith) in
      ground (arith, none_owned id xs, any_request id h xs)
  | inr s ↦ ground (arith, all-owned id h xs)
]

-- Two UPDATEs, where both together take each row along an edge.
evolves_twice :
    (ok_row p q : Request → Bool) (f g : Request → Request)
    → ((x : Request)
        → ok_row x ≡ true
        → goes x (let y = if p x then f x else x in if q y then g y else y) ≡ true)
    → (xs : List Request) → all ok_row xs ≡ true
    → evolves xs (update q g (update p f xs)) ≡ true
unfolding evolves
evolves_twice ok_row p q f g h [] a = refl
evolves_twice ok_row p q f g h (x ∷ xs) a = ground (arith, h x, evolves_twice ok_row p q f g h xs)

-- The end of a provisioning, where `CreateMachine` has left the requests as they were.
settle-Follows :
    (id : Text) (db : Db) (rs : List Request) (out : Db × Result CreateError CreateMachineResult)
    → out.0.requests ≡ rs
    → evolves db.requests (update (is_request id) (set_status RequestStatus.provisioned) rs) ≡ true
    → evolves db.requests (update (is_being_provisioned id) (set_status RequestStatus.approved) rs)
      ≡ true
    → Follows db (settle id out)
unfolding settle
settle-Follows id db rs (db', err e) same done back = record { rows = rw same back }
settle-Follows id db rs (db', ok res) same done back = record { rows = rw same done }

create_for-Follows :
    (c : Crypto) (cfg : Config) (host : Host) (admin : Option Text) (req : ProvisionRequest)
    (id name : Text) (db db1 : Db)
    → distinct db.requests ≡ true
    → Consumed id db (db1, id)
    → Follows db (create_for c cfg host admin req id name db1)
unfolding create_for settle reaches is_approved is_provisioning
create_for-Follows c cfg host admin req id name db db1 u k =
    let mine = all-owned id k.hash db.requests u k.held in
    let rows : db1.requests ≡ update (takes_token id k.hash) consumed_row db.requests =
      ap (λ d. d.requests) k.stored in
    let slug = if same req.slug [] then normalize_slug name else req.slug in
    let taken : evolves db.requests db1.requests ≡ true = rw rows (
      evolves-update (takes_token id k.hash) consumed_row (λ r p. ground (arith, same_refl r.id))
        db.requests) in
    let done : evolves db.requests
          (update (is_request id) (set_status RequestStatus.provisioned) db1.requests)
        ≡ true =
      rw rows (
        evolves_twice (owned id) (takes_token id k.hash) (is_request id) consumed_row
          (set_status RequestStatus.provisioned) (λ x o. ground (arith, same_refl x.id)) db.requests
          mine) in
    let back : evolves db.requests
          (update (is_being_provisioned id) (set_status RequestStatus.approved) db1.requests)
        ≡ true =
      rw rows (
        evolves_twice (owned id) (takes_token id k.hash) (is_being_provisioned id) consumed_row
          (set_status RequestStatus.approved)
          (λ x o. ground (arith, same_refl x.id, reaches_refl x.status)) db.requests mine) in
    elim (Bool-cases (valid_slug slug)) [
      | inr e ↦ rw (e, create_for) (record { rows = taken })
      | inl e ↦ elim (Option-cases admin) [
        | inl f ↦ rw (e, f, create_for) (record { rows = taken })
        | inr (owner, f) ↦
            rw (e, f, create_for)
              (settle-Follows id db db1.requests
                (create_machine c cfg host (to_input req slug name owner) db1)
                (create_machine-requests c cfg host (to_input req slug name owner) db1) done back)
      ]
    ]

after_consume-Follows :
    (c : Crypto) (cfg : Config) (host : Host) (admin : Option Text) (req : ProvisionRequest)
    (db : Db) (out : Db × Result ConsumeError (Text × Text))
    → distinct db.requests ≡ true
    → consume_setup_token c host.now req.request_id req.setup_token db ≡ out
    → Follows db (after_consume c cfg host admin req out)
after_consume-Follows c cfg host admin req db (db1, err e) u h =
    let before = (consume_setup_token-Follows c host.now req.request_id req.setup_token db).rows in
    record { rows = rw (sym (ap (λ o. o.0.requests) h)) before }
after_consume-Follows c cfg host admin req db (db1, ok (id', name)) u h =
    let k = consume_setup_token-ok c host.now req.request_id req.setup_token db db1 id' name h in
    create_for-Follows c cfg host admin req id' name db db1 u (record {
      hash = k.hash;
      held = rw k.same_id k.held;
      stored = rw k.same_id k.stored;
      same_id = refl;
    })

pub provision_client-Follows :
    (c : Crypto) (cfg : Config) (host : Host) (admin : Option Text)
    (unmarshal : Text → Option Wanted) (req : ProvisionRequest) (db : Db)
    → distinct db.requests ≡ true
    → Follows db (provision_client c cfg host admin unmarshal req db)
unfolding provision_client
provision_client-Follows c cfg host admin unmarshal req db u =
    let rest = (after_consume-Follows c cfg host admin req db _ u refl).rows in
    record { rows = ground (arith, rest, evolves_refl db.requests) }
