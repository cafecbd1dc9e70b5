-- ===== src/Carrier/Stream/Delivery.antt =====
-- internal/wscarrier/wscarrier.go: what one end's `pump` reads from its plain side, the other end's
-- `pump` writes to its plain side.
use mathlib.Core.List.{append-nil}
use reach.Base.{
  ℕ, zero, suc, ◌+◌, ◌≤◌, ◌<◌, ◌≡◌, refl, Bool, true, false, not, List, [], ◌∷◌, ◌++◌, some, arith,
  ◌==◌, length, All, Text,
}
use reach.Base.Result.{ok}
use reach.Carrier.Frame.{eof, max_frame, read_frame, write_frame}
use reach.Carrier.Frame.RoundTrip.{read_frame-write_frame}
use reach.Carrier.Stream.{Rand, inbound, outbound}

-- The random source always has the four bytes of a key.
abbrev pub GivesKeys : Rand → Type 0
GivesKeys rand = (i : ℕ) → (key : Text) × (rand i ≡ some key) × (length key ≡ 4)

abbrev pub join : List Text → Text
join [] = []
join (s ∷ ss) = s ++ join ss

not-not : (c : Bool) → not (not c) ≡ true → c ≡ true
not-not c h = ground arith

-- A frame is written whenever there is a key, and is read back by the other end.
pub frame_crosses :
    (c : Bool) (key : Text) (opcode : ℕ) (payload : Text)
    → length key ≡ 4
    → opcode < 16
    → length payload ≤ max_frame
    → (frame : Text) × (write_frame (some key) opcode payload c ≡ some frame)
      × ((rest : Text)
          → read_frame (not (not c)) (frame ++ rest)
            ≡ ok (record { opcode = opcode; payload = payload }, rest))
unfolding write_frame
frame_crosses true key opcode payload four op fits = (
  _,
  refl,
  λ rest. read_frame-write_frame true true key opcode payload rest four op fits (λ h. h) refl,
)
frame_crosses false key opcode payload four op fits = (
  _,
  refl,
  λ rest. read_frame-write_frame false false key opcode payload rest four op fits (λ h. h) refl,
)

delivers :
    (n : ℕ) (c : Bool) (rand rand' : Rand) (i j : ℕ) (bufs : List Text)
    → GivesKeys rand
    → All (λ b. length b ≤ max_frame) bufs
    → length bufs < n
    → inbound n (not c) rand' j (outbound c rand i bufs)
      ≡ some (record { plain = join bufs; replies = []; reason = eof })
unfolding inbound outbound
delivers zero c rand rand' i j bufs keys fit h = elim h [ ]
delivers (suc n) c rand rand' i j [] keys fit h =
    let (key, drawn, four) = keys i in
    let (frame, wrote, reads) = frame_crosses c key 8 [] four (omega arith) (omega arith) in
    rw (drawn, wrote) (rw (← append-nil frame) (rw (reads [], inbound)))
delivers (suc n) c rand rand' i j ([] ∷ bufs) keys fit h =
    delivers (suc n) c rand rand' i j bufs keys fit.1 (omega arith)
delivers (suc n) c rand rand' i j ((b ∷ bs) ∷ bufs) keys fit h =
    let (key, drawn, four) = keys i in
    let (frame, wrote, reads) = frame_crosses c key 2 (b ∷ bs) four (omega arith) fit.0 in
    let full : (length (b ∷ bs) == 0) ≡ false = ground arith in
    rw (drawn, wrote, full)
      (rw (reads (outbound c rand (i + 1) bufs), inbound)
        (rw (delivers n c rand rand' (i + 1) j bufs keys fit.1 (omega arith))))

-- Whatever the pieces, each of at most 16 MiB, that `pump` reads from its plain side at one end,
-- `pump` at the other end writes exactly their bytes, in order, to its plain side, writes no frame of
-- its own, and stops by the end of the file. The sending end masks its frames if it is the client
-- and the other end then expects that. The source of random keys must not fail, and the fuel must
-- exceed the number of pieces.
pub inbound-outbound :
    (n : ℕ) (client : Bool) (rand rand' : Rand) (bufs : List Text)
    → GivesKeys rand
    → All (λ b. length b ≤ max_frame) bufs
    → length bufs < n
    → inbound n (not client) rand' 0 (outbound client rand 0 bufs)
      ≡ some (record { plain = join bufs; replies = []; reason = eof })
inbound-outbound n client rand rand' bufs = delivers n client rand rand' 0 0 bufs
