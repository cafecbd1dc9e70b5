-- ===== src/Provisioner/Observed/States.antt =====
-- provisioner.go: when `recomputeObserved` calls a machine online, gone or degraded.
use reach.Base.{
  ℕ, ◌-◌, ◌*◌, ◌≤◌, ◌<◌, ◌≡◌, ◌≢◌, refl, ◌⊎◌, inl, inr, true, false, Option, none, some, arith, ltb,
  Text, codes, same, same_iff, Bool-cases, ltb→lt,
}
use reach.Model.Words.{ObservedState}
use reach.Model.{Time}
use reach.Provisioner.Observed.{Sight, observe}

-- The last heartbeat is no older than twice the configured time.
abbrev pub IsFresh : ℕ → Time → Option Time → Type 0
IsFresh offline_after now none = ⊥
IsFresh offline_after now (some last) = now - last ≤ offline_after * 2

abbrev pub IsStale : ℕ → Time → Option Time → Type 0
IsStale offline_after now none = ⊥
IsStale offline_after now (some last) = offline_after * 2 < now - last

-- What must be seen of a machine for each observed state.
abbrev pub Shows : ℕ → Time → Sight → ObservedState → Type 0
Shows after now s ObservedState.online =
    IsFresh after now s.heartbeat
    × (s.agent_tunnel ≡ codes "connected")
    × (s.probe ≡ codes "reachable")
    × (s.local_ssh ≡ codes "healthy")
Shows after now s ObservedState.gone =
    IsStale after now s.heartbeat × (s.probe ≡ codes "unreachable")
Shows after now s ObservedState.unknown = (s.heartbeat ≡ none) × (s.probe ≢ codes "reachable")
Shows after now s ObservedState.offline =
    (s.probe ≢ codes "reachable")
    × ((IsStale after now s.heartbeat × (s.probe ≢ codes "unreachable"))
        ⊎ (IsFresh after now s.heartbeat × (s.agent_tunnel ≢ codes "connected")))
Shows after now s ObservedState.degraded =
    ((s.probe ≡ codes "reachable")
      ⊎ (IsFresh after now s.heartbeat × (s.agent_tunnel ≡ codes "connected")))
    × ¬ (
        IsFresh after now s.heartbeat
        × (s.agent_tunnel ≡ codes "connected")
        × (s.probe ≡ codes "reachable")
        × (s.local_ssh ≡ codes "healthy"))

word_cases : (a b : Text) → ((same a b ≡ true) × (a ≡ b)) ⊎ ((same a b ≡ false) × (a ≢ b))
word_cases a b = elim (Bool-cases (same a b)) [
  | inl e ↦ inl (e, (same_iff a b).0 e)
  | inr e ↦ inr (e, λ q. ground (arith, same_iff a b))
]

abbrev seeing : Option Time → Text → Text → Text → Sight
seeing hb tunnel ssh probe = record {
  heartbeat = hb;
  agent_tunnel = tunnel;
  local_ssh = ssh;
  probe = probe;
}

observe-none :
    (after now : ℕ) (tunnel ssh probe : Text)
    → let s = seeing none tunnel ssh probe in Shows after now s (observe after now s)
unfolding observe
observe-none after now tunnel ssh probe = elim (word_cases probe (codes "reachable")) [
  | inl (r, re) ↦ rw r (inl re, λ k. k.0)
  | inr (r, rn) ↦ rw r (refl, rn)
]

observe_stale :
    (after now last : ℕ) (tunnel ssh probe : Text)
    → ltb (after * 2) (now - last) ≡ true
    → let s = seeing (some last) tunnel ssh probe in Shows after now s (observe after now s)
unfolding observe
observe_stale after now last tunnel ssh probe st =
    let old : after * 2 < now - last = ltb→lt _ _ st in
    elim (word_cases probe (codes "reachable")) [
      | inl (r, re) ↦ rw (st, r) (inl re, λ k. absurd (omega (arith, k.0)))
      | inr (r, rn) ↦ elim (word_cases probe (codes "unreachable")) [
        | inl (u, ue) ↦ rw (st, r, u) (old, ue)
        | inr (u, un) ↦ rw (st, r, u) (rn, inl (old, un))
      ]
    ]

observe_fresh :
    (after now last : ℕ) (tunnel ssh probe : Text)
    → ltb (after * 2) (now - last) ≡ false
    → let s = seeing (some last) tunnel ssh probe in Shows after now s (observe after now s)
unfolding observe
observe_fresh after now last tunnel ssh probe fr =
    let new : now - last ≤ after * 2 = ground arith in
    elim (word_cases tunnel (codes "connected")) [
      | inl (c, ce) ↦ elim (word_cases probe (codes "reachable")) [
        | inl (r, re) ↦ elim (word_cases ssh (codes "healthy")) [
          | inl (h, he) ↦ rw (fr, c, r, h) (new, ce, re, he)
          | inr (h, hn) ↦ rw (fr, c, r, h) (inl re, λ k. hn k.3)
        ]
        | inr (r, rn) ↦ rw (fr, c, r) (inr (new, ce), λ k. rn k.2)
      ]
      | inr (c, cn) ↦ elim (word_cases probe (codes "reachable")) [
        | inl (r, re) ↦ rw (fr, c, r) (inl re, λ k. cn k.1)
        | inr (r, rn) ↦ rw (fr, c, r) (rn, inr (new, cn))
      ]
    ]

observe_at :
    (after now : ℕ) (hb : Option Time) (tunnel ssh probe : Text)
    → let s = seeing hb tunnel ssh probe in Shows after now s (observe after now s)
observe_at after now none tunnel ssh probe = observe-none after now tunnel ssh probe
observe_at after now (some last) tunnel ssh probe =
    elim (Bool-cases (ltb (after * 2) (now - last))) [
      | inl st ↦ observe_stale after now last tunnel ssh probe st
      | inr fr ↦ observe_fresh after now last tunnel ssh probe fr
    ]

-- The state that `recomputeObserved` gives a machine is shown by what is seen of it: online, by a
-- fresh heartbeat, a connected tunnel, healthy SSH and a reachable port; gone, by a stale heartbeat
-- and an unreachable port; unknown, by no heartbeat and no reachable port; offline, by a port that is
-- not reachable with a stale heartbeat (and no word that it is unreachable) or a fresh one with no
-- connected tunnel; degraded, by a reachable port or by a fresh heartbeat with a connected tunnel,
-- but not by all that online wants.
pub observe-Shows :
    (offline_after : ℕ) (now : Time) (s : Sight)
    → Shows offline_after now s (observe offline_after now s)
observe-Shows after now s = observe_at after now s.heartbeat s.agent_tunnel s.local_ssh s.probe
