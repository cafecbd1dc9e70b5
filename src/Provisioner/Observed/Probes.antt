-- ===== src/Provisioner/Observed/Probes.antt =====
-- provisioner.go: a round of probes leaves the tunnels alone that are disabled, retired or failed,
-- and gives each machine a status that goes with its desired state.
use reach.Base.{
  ℕ, ◌≡◌, refl, ◌∙◌, Bool, true, false, not, ◌&&◌, List, [], ◌∷◌, arith, select, update, Text, same,
}
use reach.Base.Int.{ℤ}
use reach.Model.Words.{is_usable}
use reach.Model.{Tunnel, Time}
use reach.Provisioner.Observed.{
  recompute_observed, probed_row, check_one, check_all, run_health_check,
}
use reach.Store.{Db}

-- The tunnels that a probe may not touch, in order.
abbrev pub idle : List Tunnel → List Tunnel
idle = select (λ t. not (is_usable t.status))

probed_usable :
    (ok : Bool) (now : Time) (t : Tunnel) → is_usable (probed_row ok now t).status ≡ true
unfolding is_usable
probed_usable true now t = refl
probed_usable false now t = refl

idle-update :
    (id : Text) (ok : Bool) (now : Time) (ts : List Tunnel)
    → idle (update (λ u. same u.id id && is_usable u.status) (probed_row ok now) ts) ≡ idle ts
idle-update id ok now [] = refl
idle-update id ok now (t ∷ ts) = ground (arith, idle-update id ok now ts, probed_usable ok now t)

check_all-idle :
    (after : ℕ) (now : Time) (check : ℤ → Bool × Text) (ts : List Tunnel) (db : Db)
    → idle (check_all after now check ts db).tunnels ≡ idle db.tunnels
unfolding check_all check_one recompute_observed
check_all-idle after now check [] db = refl
check_all-idle after now check (t ∷ ts) db =
    check_all-idle after now check ts (check_one after now t (check t.remote_port) db)
    ∙ idle-update t.id (check t.remote_port).0 now db.tunnels

-- `RunHealthCheck` changes no tunnel that is disabled, retired or failed: these rows are the same
-- before and after it, whatever the probes say and however many tunnels there are.
pub run_health_check-idle :
    (offline_after : ℕ) (now : Time) (check : ℤ → Bool × Text) (db : Db)
    → idle (run_health_check offline_after now check db).tunnels ≡ idle db.tunnels
unfolding run_health_check
run_health_check-idle after now check db =
    check_all-idle after now check (select (λ t. is_usable t.status) db.tunnels) db
