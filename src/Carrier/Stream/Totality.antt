-- ===== src/Carrier/Stream/Totality.antt =====
-- internal/wscarrier/wscarrier.go: the loops over frames end, since each frame takes bytes from the
-- reader.
use reach.Base.Result.{Result-cases}
use reach.Base.{
  ℕ, zero, suc, ◌+◌, ◌<◌, ◌≡◌, inl, inr, Bool, not, Option, none, some, arith, length, Text, ◌≢◌,
  Option-cases,
}
use reach.Carrier.Frame.{Frame, read_frame}
use reach.Carrier.Frame.Bounds.{read_frame-bounds}
use reach.Carrier.Stream.{Rand, Received, inbound, dispatch}

dispatch-ne-none :
    (client : Bool) (key : Option Text) (f : Frame) {same later : Option Received}
    → same ≢ none
    → later ≢ none
    → dispatch client key f same later ≢ none
dispatch-ne-none client key f h h' = ground arith

inbound-ne-none :
    (n : ℕ) (client : Bool) (rand : Rand) (i : ℕ) (s : Text)
    → length s < n
    → inbound n client rand i s ≢ none
unfolding inbound
inbound-ne-none zero client rand i s h = elim h [ ]
inbound-ne-none (suc n) client rand i s h = elim (Result-cases (read_frame (not client) s)) [
  | inr (e, stops) ↦ rw (stops, inbound) (λ q. cc)
  | inl ((f, rest), reads) ↦
      let shorter = (read_frame-bounds (not client) s reads).0 in
      rw (reads, inbound)
        (dispatch-ne-none client (rand i) f (inbound-ne-none n client rand i rest (omega arith))
          (inbound-ne-none n client rand (i + 1) rest (omega arith)))
]

-- Fuel above the number of bytes that have come is enough: the goroutine from the WebSocket side
-- stops, with what it has delivered, whatever the bytes are.
pub inbound-total :
    (client : Bool) (rand : Rand) (i : ℕ) (s : Text)
    → (r : Received) × (inbound (length s + 1) client rand i s ≡ some r)
inbound-total client rand i s = elim (Option-cases (inbound (length s + 1) client rand i s)) [
  | inl out ↦ absurd (inbound-ne-none (length s + 1) client rand i s (omega arith) out)
  | inr found ↦ found
]
