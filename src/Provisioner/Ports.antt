-- ===== src/Provisioner/Ports.antt =====
-- provisioner.go: `reservedTunnelPort` and `allocatePortTx`.
use reach.Base.Int.{ℤ, pos, negsuc, same_ℤ, same_ℤ_iff}
use reach.Base.{
  ℕ, zero, suc, ◌+◌, ◌-◌, ◌≤◌, ◌<◌, ◌≡◌, refl, ◌⊎◌, inl, inr, Bool, true, false, not, ◌&&◌, ◌||◌,
  List, [], ◌∷◌, ◌≢◌, Option, none, some, arith, leb, ◌==◌, if◌then◌else◌, within, any, same,
  Bool-cases,
}
use reach.Model.Words.{is_retired_tunnel}
use reach.Model.{Hub, Tunnel}

unfoldable pub reserved_tunnel_port : ℕ → Bool
reserved_tunnel_port port =
    if port == 9300 || port == 9401 || port == 9443 then true else leb 9163 port && leb port 9171

-- `remote_port BETWEEN start AND end`
abbrev pub port_between : ℕ → ℕ → ℤ → Bool
port_between lo hi (pos p) = within lo hi p
port_between lo hi (negsuc p) = false

-- The row is one of those that the query returns, and has this port.
abbrev pub occupies : Hub → ℕ → Tunnel → Bool
occupies h port t =
    same t.hub_id h.id
    && not (is_retired_tunnel t.status)
    && port_between h.port_start h.port_end t.remote_port
    && same_ℤ t.remote_port (pos port)

-- `used[port] || reservedTunnelPort(port) || portListening(port)`
unfoldable pub taken : (ℕ → Bool) → List Tunnel → Hub → ℕ → Bool
unfolding reserved_tunnel_port
taken listening tunnels h port =
    any (occupies h port) tunnels || reserved_tunnel_port port || listening port

-- The loop, with the rounds that are left.
unfoldable pub scan_ports : (ℕ → Bool) → ℕ → ℕ → Option ℕ
scan_ports skip zero port = none
scan_ports skip (suc n) port =
    let later = scan_ports skip n (port + 1) in if skip port then later else some port

unfoldable pub allocate_port : (ℕ → Bool) → List Tunnel → Hub → Option ℕ
unfolding taken scan_ports
allocate_port listening tunnels h =
    scan_ports (taken listening tunnels h) (h.port_end + 1 - h.port_start) h.port_start

-- The least port of a range that is not skipped.
pub record IsFirst (skip : ℕ → Bool) (lo hi port : ℕ) : Type 0 where
  pub low : lo ≤ port
  pub high : port < hi
  pub free : skip port ≡ false
  pub least : (q : ℕ) → lo ≤ q → q < port → skip q ≡ true

abbrev pub ScanSpec : (ℕ → Bool) → ℕ → ℕ → Option ℕ → Type 0
ScanSpec skip lo hi none = (q : ℕ) → lo ≤ q → q < hi → skip q ≡ true
ScanSpec skip lo hi (some port) = IsFirst skip lo hi port

split_first : {lo q : ℕ} → lo ≤ q → (lo ≡ q) ⊎ (lo + 1 ≤ q)
split_first h = omega arith

ScanSpec-skip :
    (skip : ℕ → Bool) (lo hi : ℕ) (r : Option ℕ)
    → skip lo ≡ true
    → ScanSpec skip (lo + 1) hi r
    → ScanSpec skip lo hi r
ScanSpec-skip skip lo hi none s h =
    λ q l u. elim (split_first l) [ inl e ↦ rw (← e) s | inr l' ↦ h q l' u ]
ScanSpec-skip skip lo hi (some port) s h = record {
  low = omega (arith, h.low);
  high = h.high;
  free = h.free;
  least = λ q l u. elim (split_first l) [ inl e ↦ rw (← e) s | inr l' ↦ h.least q l' u ];
}

scan_ports_lem :
    (skip : ℕ → Bool) (n lo hi : ℕ) → n ≡ hi - lo → ScanSpec skip lo hi (scan_ports skip n lo)
unfolding scan_ports
scan_ports_lem skip zero lo hi e = λ q l u. absurd (omega arith)
scan_ports_lem skip (suc n) lo hi e = elim (Bool-cases (skip lo)) [
  | inl s ↦ rw s (ScanSpec-skip skip lo hi _ s (scan_ports_lem skip n (lo + 1) hi (omega arith)))
  | inr s ↦ rw s (record {
    low = omega arith;
    high = omega arith;
    free = s;
    least = λ q l u. absurd (omega arith);
  })
]

-- A tunnel of the hub that is not retired has the port.
abbrev pub is_held_by : Hub → ℕ → Tunnel → Bool
is_held_by h port t =
    same_ℤ t.remote_port (pos port) && not (is_retired_tunnel t.status) && same t.hub_id h.id

-- A port that the hub can give to a tunnel.
pub record IsOpen (listening : ℕ → Bool) (tunnels : List Tunnel) (h : Hub) (port : ℕ) : Type 0 where
  pub unheld : any (is_held_by h port) tunnels ≡ false
  pub no_http : port ≢ 9300
  pub no_api : port ≢ 9401
  pub no_https : port ≢ 9443
  pub no_service : (port < 9163) ⊎ (9171 < port)
  pub silent : listening port ≡ false

-- Why a port is passed over.
pub data Barred (listening : ℕ → Bool) (tunnels : List Tunnel) (h : Hub) (port : ℕ) : Type 0 where
  held : any (is_held_by h port) tunnels ≡ true → Barred listening tunnels h port
  http : port ≡ 9300 → Barred listening tunnels h port
  api : port ≡ 9401 → Barred listening tunnels h port
  https : port ≡ 9443 → Barred listening tunnels h port
  service : 9163 ≤ port → port ≤ 9171 → Barred listening tunnels h port
  heard : listening port ≡ true → Barred listening tunnels h port

held-eq :
    (h : Hub) (port : ℕ) (tunnels : List Tunnel)
    → h.port_start ≤ port
    → port ≤ h.port_end
    → any (occupies h port) tunnels ≡ any (is_held_by h port) tunnels
held-eq h port [] l u = refl
held-eq h port (t ∷ tunnels) l u =
    let rest = held-eq h port tunnels l u in
    elim (Bool-cases (same_ℤ t.remote_port (pos port))) [
      | inr e ↦ ground (arith, rest, e)
      | inl e ↦
          let there : t.remote_port ≡ pos port = (same_ℤ_iff t.remote_port (pos port)).0 e in
          rw there (ground (arith, rest, l, u))
    ]

reserved-cases :
    (port : ℕ)
    → ((reserved_tunnel_port port ≡ false)
        × (port ≢ 9300)
        × (port ≢ 9401)
        × (port ≢ 9443)
        × ((port < 9163) ⊎ (9171 < port)))
      ⊎ ((reserved_tunnel_port port ≡ true)
          × (((port ≡ 9300) ⊎ (port ≡ 9401)) ⊎ ((port ≡ 9443) ⊎ ((9163 ≤ port) × (port ≤ 9171)))))
unfolding reserved_tunnel_port
reserved-cases port = ground arith

module _ (listening : ℕ → Bool) (tunnels : List Tunnel) (h : Hub) (port : ℕ)
    (low : h.port_start ≤ port) (high : port ≤ h.port_end) where
  taken-Barred : taken listening tunnels h port ≡ true → Barred listening tunnels h port
  unfolding taken
  taken-Barred e = elim (Bool-cases (any (is_held_by h port) tunnels)) [
    | inl b ↦ held b
    | inr b ↦ elim (Bool-cases (listening port)) [
      | inl l ↦ heard l
      | inr l ↦ elim (reserved-cases port) [
        | inl (r, _, _, _, _) ↦ absurd (ground (arith, e, b, l, r, held-eq h port tunnels low high))
        | inr (_, inl (inl p)) ↦ http p
        | inr (_, inl (inr p)) ↦ api p
        | inr (_, inr (inl p)) ↦ https p
        | inr (_, inr (inr (p, q))) ↦ service p q
      ]
    ]
  ]

  taken-IsOpen : taken listening tunnels h port ≡ false → IsOpen listening tunnels h port
  unfolding taken
  taken-IsOpen e = elim (reserved-cases port) [
    | inr (r, _) ↦ absurd (ground (arith, e, r))
    | inl (_, p, q, r, apart) ↦ record {
      unheld = ground (arith, e, held-eq h port tunnels low high);
      no_http = p;
      no_api = q;
      no_https = r;
      no_service = apart;
      silent = ground (arith, e);
    }
  ]

-- The outcome of the search for a port.
abbrev pub PortSpec : (ℕ → Bool) → List Tunnel → Hub → Option ℕ → Type 0
PortSpec listening tunnels h none =
    (q : ℕ) → h.port_start ≤ q → q ≤ h.port_end → Barred listening tunnels h q
PortSpec listening tunnels h (some port) =
    (h.port_start ≤ port)
    × (port ≤ h.port_end)
    × IsOpen listening tunnels h port
    × ((q : ℕ) → h.port_start ≤ q → q < port → Barred listening tunnels h q)

PortSpec-of :
    (listening : ℕ → Bool) (tunnels : List Tunnel) (h : Hub) (out : Option ℕ)
    → ScanSpec (taken listening tunnels h) h.port_start (h.port_end + 1) out
    → PortSpec listening tunnels h out
PortSpec-of listening tunnels h none all_taken =
    λ q l u. taken-Barred listening tunnels h q l u (all_taken q l (omega arith))
PortSpec-of listening tunnels h (some port) first =
    let high : port ≤ h.port_end = omega (arith, first.high) in
    (
      first.low,
      high,
      taken-IsOpen listening tunnels h port first.low high first.free,
      λ q l u. taken-Barred listening tunnels h q l (omega arith) (first.least q l u),
    )

-- `allocatePortTx` gives the least port of the hub's range that no tunnel of the hub holds (retired
-- tunnels aside), that is none of 9300, 9401, 9443 and 9163 to 9171, and on which nothing listens; and
-- it gives none only where every port of the range is held, one of these, or listened on.
pub allocate_port_lem :
    (listening : ℕ → Bool) (tunnels : List Tunnel) (h : Hub)
    → PortSpec listening tunnels h (allocate_port listening tunnels h)
unfolding allocate_port
allocate_port_lem listening tunnels h =
    PortSpec-of listening tunnels h (allocate_port listening tunnels h)
      (scan_ports_lem (taken listening tunnels h) _ _ _ refl)
