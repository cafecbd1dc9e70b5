-- ===== src/Carrier/Frame/RoundTrip.antt =====
-- internal/wscarrier/wscarrier.go: what `writeFrame` writes, `readFrame` reads back.
use mathlib.Core.List.{append_assoc}
use mathlib.Core.Option.{some-injective}
use reach.Base.Result.{ok}
use reach.Base.Xor.{bit_xor_undo}
use reach.Base.{
  ℕ, ◌+◌, ◌/◌, ◌%◌, ◌≤◌, ◌<◌, ◌≡◌, refl, ap, inl, inr, Bool, true, false, [], ◌∷◌, ◌++◌, some,
  arith, ltb, leb, if◌then◌else◌, length, take, drop, get_or, Text, length-append, Bool-cases,
}
use reach.Carrier.Frame.{
  mask_from, fin_byte, length_bytes, write_frame, read_byte, read_full, of_be, read_length,
  read_key, read_frame, max_frame, be16, be64,
}

pub mask_from_undo : (i : ℕ) (key s : Text) → mask_from i key (mask_from i key s) ≡ s
unfolding mask_from
mask_from_undo i key [] = refl
mask_from_undo i key (b ∷ s) =
    rw (bit_xor_undo b (get_or key (i % 4) 0), mask_from_undo (i + 1) key s)

pub length-mask_from : (i : ℕ) (key s : Text) → length (mask_from i key s) ≡ length s
unfolding mask_from
length-mask_from i key [] = refl
length-mask_from i key (b ∷ s) = omega (arith, length-mask_from (i + 1) key s)

take-append : (xs s : Text) → take (length xs) (xs ++ s) ≡ xs
take-append [] s = refl
take-append (x ∷ xs) s = ap (◌∷◌ x) (take-append xs s)

drop-append : (xs s : Text) → drop (length xs) (xs ++ s) ≡ s
drop-append [] s = refl
drop-append (x ∷ xs) s = drop-append xs s

pub read_full-append : (xs s : Text) → read_full (length xs) (xs ++ s) ≡ ok (xs, s)
unfolding read_full
read_full-append xs s = ground (arith, length-append xs s, take-append xs s, drop-append xs s)

-- The same where the length is given otherwise.
read_full_of : (n : ℕ) (xs s : Text) → n ≡ length xs → read_full n (xs ++ s) ≡ ok (xs, s)
read_full_of n xs s e = rw e (read_full-append xs s)

-- The lengths that a frame's header can say.
abbrev length_code : ℕ → ℕ
length_code l = if ltb l 126 then l else if leb l 0xffff then 126 else 127

abbrev length_ext : ℕ → Text
length_ext l = if ltb l 126 then [] else if leb l 0xffff then be16 (l % 65536) else be64 l

length_bytes_split : (m l : ℕ) → length_bytes m l ≡ (m + length_code l) ∷ length_ext l
unfolding length_bytes
length_bytes_split m l = ground arith

of_be-be16 : (l : ℕ) → l ≤ 65535 → of_be 0 (be16 (l % 65536)) ≡ l
of_be-be16 l h = omega arith

of_be-be64 : (l : ℕ) → l ≤ max_frame → of_be 0 (be64 l) ≡ l
of_be-be64 l h = omega arith

read_length_ext :
    (l : ℕ) (s : Text) → l ≤ max_frame → read_length (length_code l) (length_ext l ++ s) ≡ ok (l, s)
unfolding read_length
read_length_ext l s h = elim (Bool-cases (ltb l 126)) [
  | inl short ↦ rw short (ground arith)
  | inr long ↦ elim (Bool-cases (leb l 0xffff)) [
    | inl two ↦
        rw (long, two)
          (rw (read_full-append (be16 (l % 65536)) s) (rw (of_be-be16 l (ground arith))))
    | inr eight ↦ rw (long, eight) (rw (read_full-append (be64 l) s) (rw (of_be-be64 l h)))
  ]
]

plain_frame :
    (opcode : ℕ) (payload rest : Text)
    → opcode < 16
    → length payload ≤ max_frame
    → read_frame false (fin_byte opcode ∷ (length_bytes 0 (length payload) ++ payload) ++ rest)
      ≡ ok (record { opcode = opcode; payload = payload }, rest)
unfolding read_frame read_byte read_key
plain_frame opcode payload rest op fits =
    let l = length payload in
    let low : (0 + length_code l) % 0x80 ≡ length_code l = ground arith in
    let bit : (0 + length_code l) / 0x80 % 2 ≡ 0 = ground arith in
    let opc : fin_byte opcode % 16 ≡ opcode = omega arith in
    rw (length_bytes_split 0 l, append_assoc (length_ext l) payload rest, bit, low)
      (rw (read_length_ext l (payload ++ rest) fits)
        (rw (read_full-append payload rest) (ground (arith))))

masked_frame :
    (expect : Bool) (key : Text) (opcode : ℕ) (payload rest : Text)
    → length key ≡ 4
    → opcode < 16
    → length payload ≤ max_frame
    → read_frame expect (
        fin_byte opcode ∷ (length_bytes 0x80 (length payload) ++ (key ++ mask_from 0 key payload))
        ++ rest)
      ≡ ok (record { opcode = opcode; payload = payload }, rest)
unfolding read_frame read_byte read_key
masked_frame expect key opcode payload rest four op fits =
    let l = length payload in
    let low : (0x80 + length_code l) % 0x80 ≡ length_code l = ground arith in
    let bit : (0x80 + length_code l) / 0x80 % 2 ≡ 1 = ground arith in
    let body = mask_from 0 key payload in
    rw
      (
        length_bytes_split 0x80 l,
        append_assoc (length_ext l) (key ++ body) rest,
        append_assoc key body rest,
        bit,
        low,
      )
      (rw (read_length_ext l (key ++ (body ++ rest)) fits) (
        rw (read_full_of 4 key (body ++ rest) (omega arith)) (
          rw (read_full_of l body rest (omega (arith, length-mask_from 0 key payload)))
            (ground (arith, mask_from_undo 0 key payload)))))

-- What `writeFrame` writes for an opcode below 16 and a payload of at most 16 MiB, masked or not,
-- `readFrame` reads back, opcode and payload, and leaves the bytes that follow; a reader that
-- expects masked frames must be given one. A masked frame needs the four bytes of a key.
pub read_frame-write_frame :
    (expect masked : Bool) (key : Text) (opcode : ℕ) (payload rest : Text) {frame : Text}
    → length key ≡ 4
    → opcode < 16
    → length payload ≤ max_frame
    → (expect ≡ true → masked ≡ true)
    → write_frame (some key) opcode payload masked ≡ some frame
    → read_frame expect (frame ++ rest) ≡ ok (record { opcode = opcode; payload = payload }, rest)
unfolding write_frame
read_frame-write_frame expect true key opcode payload rest four op fits agree w =
    rw (← some-injective _ _ w) (masked_frame expect key opcode payload rest four op fits)
read_frame-write_frame true false key opcode payload rest four op fits agree w = cc (agree refl)
read_frame-write_frame false false key opcode payload rest four op fits agree w =
    rw (← some-injective _ _ w) (plain_frame opcode payload rest op fits)
