-- ===== src/Carrier/Frame.antt =====
-- internal/wscarrier/wscarrier.go: `writeFrame` and `readFrame`. A reader is the bytes that it has
-- still to deliver, and then the end of the file; the random key is an argument, `none` where
-- reading it fails.
pub mod RoundTrip
pub mod Bounds
use reach.Base.Result.{Result, ok, err, ◌>>=◌, ◌>>◌, guard}
use reach.Base.{
  ℕ, zero, suc, ◌+◌, ◌*◌, ◌/◌, ◌%◌, Bool, true, false, not, ◌&&◌, List, [], ◌∷◌, ◌++◌, Option, none,
  some, ltb, leb, ◌==◌, if◌then◌else◌, length, take, drop, get_or, Text,
}
use Prim.Native.Nat.{bit_xor}

pub data Error : Type 0 where
  eof unexpected_eof not_masked : Error
  too_large : ℕ → Error

pub record Frame : Type 0 where
  pub opcode : ℕ
  pub payload : Text

-- `payload[i] ^ key[i%4]`, from index i on.
unfoldable pub mask_from : ℕ → Text → Text → Text
mask_from i key [] = []
mask_from i key (b ∷ bs) = bit_xor b (get_or key (i % 4) 0) ∷ mask_from (i + 1) key bs

abbrev pub be16 : ℕ → Text
be16 l = (l / 256 % 256) ∷ (l % 256) ∷ []

abbrev pub be32 : ℕ → Text
be32 l = be16 (l / 65536) ++ be16 l

abbrev pub be64 : ℕ → Text
be64 l = be32 (l / 4294967296) ++ be32 l

-- The second byte of the header and the length behind it. The mask bit lies above the length's
-- bits, so that `|` is a sum.
unfoldable pub length_bytes : ℕ → ℕ → Text
length_bytes mask_bit l =
    if ltb l 126
    then (mask_bit + l) ∷ []
    else if leb l 0xffff
    then (mask_bit + 126) ∷ be16 (l % 65536)
    else (mask_bit + 127) ∷ be64 l

abbrev pub fin_byte : ℕ → ℕ
fin_byte opcode = 0x80 + opcode % 16

unfoldable pub write_frame : Option Text → ℕ → Text → Bool → Option Text
unfolding length_bytes mask_from
write_frame rand opcode payload false =
    some (fin_byte opcode ∷ (length_bytes 0 (length payload) ++ payload))
write_frame none opcode payload true = none
write_frame (some key) opcode payload true =
    some
      (fin_byte opcode ∷ (length_bytes 0x80 (length payload) ++ (key ++ mask_from 0 key payload)))

unfoldable pub read_byte : Text → Result Error (ℕ × Text)
read_byte [] = err eof
read_byte (b ∷ s) = ok (b, s)

-- `io.ReadFull`, and `binary.Read` into an integer of n bytes.
unfoldable pub read_full : ℕ → Text → Result Error (Text × Text)
read_full n s =
    if leb n (length s)
    then ok (take n s, drop n s)
    else if length s == 0
    then err eof
    else err unexpected_eof

-- The integer that big-endian bytes stand for.
abbrev pub of_be : ℕ → Text → ℕ
of_be acc [] = acc
of_be acc (b ∷ bs) = of_be (acc * 256 + b) bs

abbrev pub max_frame : ℕ
max_frame = 16 * 1024 * 1024

unfoldable pub read_length : ℕ → Text → Result Error (ℕ × Text)
unfolding read_full
read_length l s =
    if l == 126
    then (do (x, rest) ← read_full 2 s; ok (of_be 0 x, rest))
    else if l == 127
    then (do (x, rest) ← read_full 8 s; ok (of_be 0 x, rest))
    else ok (l, s)

abbrev no_key : Text
no_key = 0 ∷ 0 ∷ 0 ∷ 0 ∷ []

unfoldable pub read_key : Bool → Text → Result Error (Text × Text)
unfolding read_full
read_key true s = read_full 4 s
read_key false s = ok (no_key, s)

abbrev unmask : Bool → Text → Text → Text
unmask masked key payload = if masked then mask_from 0 key payload else payload

-- The steps of `readFrame`, each with what the one before it has read in front of the reader.
unfoldable pub read_payload : ℕ → Bool → ℕ → Text × Text → Result Error (Frame × Text)
unfolding read_full mask_from
read_payload opcode masked l (key, s) = do
  guard (leb l max_frame) (too_large l)
  (payload, rest) ← read_full l s
  ok (record { opcode = opcode; payload = unmask masked key payload }, rest)

unfoldable pub read_body : ℕ → Bool → ℕ × Text → Result Error (Frame × Text)
unfolding read_key read_payload
read_body opcode masked (l, s) = read_key masked s >>= read_payload opcode masked l

unfoldable pub read_header : Bool → ℕ → ℕ × Text → Result Error (Frame × Text)
unfolding read_length read_body
read_header expect_masked b1 (b2, s) =
    let masked = b2 / 0x80 % 2 == 1 in
    guard (not (expect_masked && not masked)) not_masked
    >> (read_length (b2 % 0x80) s >>= read_body (b1 % 16) masked)

unfoldable pub read_first : Bool → ℕ × Text → Result Error (Frame × Text)
unfolding read_byte read_header
read_first expect_masked (b1, s) = read_byte s >>= read_header expect_masked b1

unfoldable pub read_frame : Bool → Text → Result Error (Frame × Text)
unfolding read_first
read_frame expect_masked s = read_byte s >>= read_first expect_masked
