-- ===== src/Carrier/Frame/Bounds.antt =====
-- internal/wscarrier/wscarrier.go: a frame that `readFrame` returns takes at least two bytes from the
-- reader, and its payload is within the limit.
use reach.Base.Result.{ok, bind-eq-ok, guard-eq-ok}
use reach.Base.{
  ℕ, ◌+◌, ◌/◌, ◌%◌, ◌≤◌, ◌<◌, ◌≡◌, Bool, true, false, [], ◌∷◌, arith, ◌==◌, length, Text,
  length-drop, length-take-le, leb, not, ◌&&◌,
}
use reach.Carrier.Frame.{
  Frame, read_byte, read_full, read_length, read_key, read_payload, read_body, read_header,
  read_first, read_frame, max_frame, too_large, not_masked,
}
use reach.Carrier.Frame.RoundTrip.{length-mask_from}

read_byte-shrinks :
    (s : Text) {b : ℕ} {rest : Text} → read_byte s ≡ ok (b, rest) → length rest + 1 ≤ length s
unfolding read_byte
read_byte-shrinks [] e = cc
read_byte-shrinks (b ∷ s) e = ground arith

read_full-shrinks :
    (n : ℕ) (s : Text) {x rest : Text}
    → read_full n s ≡ ok (x, rest)
    → (length rest ≤ length s) × (length x ≤ n)
unfolding read_full
read_full-shrinks n s e = ground (arith, length-drop n s, length-take-le n s)

read_length-shrinks :
    (l : ℕ) (s : Text) {n : ℕ} {rest : Text}
    → read_length l s ≡ ok (n, rest)
    → length rest ≤ length s
unfolding read_length
read_length-shrinks l s e = ground (arith, length-drop 2 s, length-drop 8 s)

read_key-shrinks :
    (masked : Bool) (s : Text) {key rest : Text}
    → read_key masked s ≡ ok (key, rest)
    → length rest ≤ length s
unfolding read_key
read_key-shrinks true s e = (read_full-shrinks 4 s e).0
read_key-shrinks false s e = ground arith

-- What a frame read from a text of n bytes keeps.
abbrev pub Within : ℕ → Frame × Text → Type 0
Within n (f, rest) = (length rest ≤ n) × (length f.payload ≤ max_frame) × (f.opcode < 16)

read_payload-Within :
    (op : ℕ) (masked : Bool) (l : ℕ) (key s : Text) {r : Frame × Text}
    → op < 16
    → read_payload op masked l (key, s) ≡ ok r
    → Within (length s) r
unfolding read_payload
read_payload-Within op masked l key s h e =
    let (fits, e') = guard-eq-ok (leb l max_frame) (too_large l) _ e in
    let ((payload, rest), reads, e'') = bind-eq-ok (read_full l s) _ e' in
    ground (arith, read_full-shrinks l s reads, length-mask_from 0 key payload)

read_body-Within :
    (op : ℕ) (masked : Bool) (l : ℕ) (s : Text) {r : Frame × Text}
    → op < 16
    → read_body op masked (l, s) ≡ ok r
    → Within (length s) r
unfolding read_body
read_body-Within op masked l s h e =
    let ((key, rest), reads, e') = bind-eq-ok (read_key masked s) (read_payload op masked l) e in
    ground (arith, read_key-shrinks masked s reads, read_payload-Within op masked l key rest h e')

read_header-Within :
    (expect : Bool) (b1 b2 : ℕ) (s : Text) {r : Frame × Text}
    → read_header expect b1 (b2, s) ≡ ok r
    → Within (length s) r
unfolding read_header
read_header-Within expect b1 b2 s e =
    let masked = b2 / 0x80 % 2 == 1 in
    let (_, e') = guard-eq-ok (not (expect && not masked)) not_masked _ e in
    let ((l, rest), reads, e'') =
      bind-eq-ok (read_length (b2 % 0x80) s) (read_body (b1 % 16) masked) e' in
    ground (
      arith,
      read_length-shrinks (b2 % 0x80) s reads,
      read_body-Within (b1 % 16) masked l rest (omega arith) e'',
    )

-- A frame that `readFrame` returns has a payload of at most 16 MiB and an opcode of four bits, and
-- at least two bytes are gone from the reader.
pub read_frame-bounds :
    (expect : Bool) (s : Text) {f : Frame} {rest : Text}
    → read_frame expect s ≡ ok (f, rest)
    → (length rest + 2 ≤ length s) × (length f.payload ≤ max_frame) × (f.opcode < 16)
unfolding read_frame read_first
read_frame-bounds expect s e =
    let ((b1, s1), reads1, e1) = bind-eq-ok (read_byte s) (read_first expect) e in
    let ((b2, s2), reads2, e2) = bind-eq-ok (read_byte s1) (read_header expect b1) e1 in
    ground (
      arith,
      read_byte-shrinks s reads1,
      read_byte-shrinks s1 reads2,
      read_header-Within expect b1 b2 s2 e2,
    )
