-- ===== src/Provisioner/Retire.antt =====
-- provisioner.go: `retireTunnelRow`, which frees a tunnel's port and account name.
use reach.Base.Int.{ℤ, pos, negsuc, same_ℤ, is_positive}
use reach.Base.{
  ℕ, ◌+◌, ◌≤◌, ◌≡◌, refl, Bool, true, false, not, ◌&&◌, ◌||◌, List, [], ◌∷◌, ◌++◌, Option, none,
  some, arith, inl, inr, Option-cases, ltb, if◌then◌else◌, any, update, Text, codes, same,
  has_prefix,
}
use reach.Model.Words.{TunnelStatus}
use reach.Model.{Tunnel}

-- `if p != nil && *p != "" { return *p }; return d`
abbrev pub text_or : Option Text → Text → Text
text_or none d = d
text_or (some []) d = d
text_or (some (c ∷ s)) d = c ∷ s

abbrev pub port_or : Option ℤ → ℤ → ℤ
port_or none d = d
port_or (some p) d = if same_ℤ p (pos 0) then d else p

abbrev deeper : ℕ → Option ℕ → Option ℕ
deeper n none = some n
deeper n (some m) = some (if ltb m n then n else m)

abbrev lower : ℤ → Bool → Option ℕ → Option ℕ
lower (pos p) on_hub r = r
lower (negsuc n) on_hub r = if on_hub then deeper n r else r

-- `SELECT MIN(remote_port) FROM tunnels WHERE hub_id=? AND remote_port<0`: the n for which the least
-- is -(n + 1).
unfoldable pub min_negative : Text → List Tunnel → Option ℕ
min_negative hub [] = none
min_negative hub (t ∷ ts) = lower t.remote_port (same t.hub_id hub) (min_negative hub ts)

abbrev pub below : Option ℕ → ℤ
below none = negsuc 0
below (some n) = negsuc (n + 1)

abbrev pub retired_user : Tunnel → Text
retired_user t =
    if has_prefix t.unix_user (codes "retired-") then t.unix_user else codes "retired-" ++ t.id

abbrev pub retired_port : List Tunnel → Tunnel → ℤ
retired_port tunnels t =
    if is_positive t.remote_port then below (min_negative t.hub_id tunnels) else t.remote_port

abbrev pub is_tunnel : Text → Tunnel → Bool
is_tunnel id t = same t.id id

abbrev pub clash : Tunnel → Tunnel → Bool
clash t u =
    same t.hub_id u.hub_id && (same_ℤ t.remote_port u.remote_port || same t.unix_user u.unix_user)

-- `UNIQUE(hub_id, remote_port)` and `UNIQUE(hub_id, unix_user)`.
unfoldable pub unique_tunnels : List Tunnel → Bool
unique_tunnels [] = true
unique_tunnels (t ∷ ts) = not (any (clash t) ts) && unique_tunnels ts

-- The UPDATE's change of the row, from the tunnel that the caller has read.
abbrev pub retired_row : List Tunnel → Tunnel → Tunnel → Tunnel
retired_row tunnels t row = record row {
  status = TunnelStatus.retired;
  original_unix_user =
      some (text_or row.original_unix_user (text_or t.original_unix_user t.unix_user));
  original_remote_port =
      some (port_or row.original_remote_port (port_or t.original_remote_port t.remote_port));
  unix_user = retired_user t;
  remote_port = retired_port tunnels t;
}

-- The table after the UPDATE, which is refused where it would break a constraint.
unfoldable pub retire_tunnel_row : List Tunnel → Tunnel → List Tunnel
unfolding unique_tunnels min_negative
retire_tunnel_row tunnels t =
    let after = update (is_tunnel t.id) (retired_row tunnels t) tunnels in
    if unique_tunnels after then after else tunnels

abbrev AtMost : ℕ → Option ℕ → Type 0
AtMost n none = Unit {0}
AtMost n (some m) = m ≤ n

deeper-AtMost : (n k : ℕ) (r : Option ℕ) → AtMost n (deeper k r) → (k ≤ n) × AtMost n r
deeper-AtMost n k none h = (h, tt)
deeper-AtMost n k (some m) h = ground arith

lower-AtMost :
    (n : ℕ) (p : ℤ) (on_hub : Bool) (r : Option ℕ)
    → AtMost n (lower p on_hub r)
    → AtMost n r × ((on_hub && same_ℤ p (negsuc (n + 1))) ≡ false)
unfolding same_ℤ
lower-AtMost n (pos p) on_hub r h = (h, ground arith)
lower-AtMost n (negsuc k) false r h = (h, refl)
lower-AtMost n (negsuc k) true r h =
    let (small, rest) = deeper-AtMost n k r h in (rest, ground arith)

-- The test for a tunnel of a hub with a port.
abbrev pub holds_port : Text → ℤ → Tunnel → Bool
holds_port hub port u = same u.hub_id hub && same_ℤ u.remote_port port

none_deeper :
    (hub : Text) (n : ℕ) (ts : List Tunnel)
    → AtMost n (min_negative hub ts)
    → any (holds_port hub (negsuc (n + 1))) ts ≡ false
unfolding min_negative
none_deeper hub n [] h = refl
none_deeper hub n (t ∷ ts) h =
    let (rest, here) = lower-AtMost n t.remote_port (same t.hub_id hub) (min_negative hub ts) h in
    rw (here) (none_deeper hub n ts rest)

lower-none :
    (p : ℤ) (on_hub : Bool) (r : Option ℕ)
    → lower p on_hub r ≡ none
    → (r ≡ none) × ((on_hub && same_ℤ p (negsuc 0)) ≡ false)
unfolding same_ℤ
lower-none (pos p) on_hub r h = (h, ground arith)
lower-none (negsuc k) false r h = (h, refl)
lower-none (negsuc k) true none h = cc
lower-none (negsuc k) true (some m) h = cc

none_negative :
    (hub : Text) (ts : List Tunnel)
    → min_negative hub ts ≡ none
    → any (holds_port hub (negsuc 0)) ts ≡ false
unfolding min_negative
none_negative hub [] h = refl
none_negative hub (t ∷ ts) h =
    let (rest, here) = lower-none t.remote_port (same t.hub_id hub) (min_negative hub ts) h in
    rw here (none_negative hub ts rest)

-- The port below the least negative one of a hub is not positive, and no tunnel of the hub holds it.
pub below-min_negative_free :
    (hub : Text) (ts : List Tunnel)
    → (any (holds_port hub (below (min_negative hub ts))) ts ≡ false)
      × (is_positive (below (min_negative hub ts)) ≡ false)
unfolding is_positive
below-min_negative_free hub ts = elim (Option-cases (min_negative hub ts)) [
  | inl e ↦ rw e (none_negative hub ts e, refl)
  | inr (n, e) ↦ rw e (none_deeper hub n ts (rw e (omega arith)), refl)
]
