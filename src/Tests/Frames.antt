-- ===== src/Tests/Frames.antt =====
-- The carrier's theorems at a masked frame of five bytes.
use reach.Base.Result.{ok}
use reach.Base.{
  ◌+◌, ◌≡◌, ◌≤◌, ◌<◌, refl, true, false, [], ◌∷◌, ◌++◌, some, arith, length, Text, codes,
}
use reach.Carrier.Frame.Bounds.{read_frame-bounds}
use reach.Carrier.Frame.RoundTrip.{read_frame-write_frame}
use reach.Carrier.Frame.{
  eof, max_frame, write_frame, read_frame, length_bytes, mask_from, read_first, read_byte,
  read_header, read_length, read_body, read_key, read_payload, read_full,
}
use reach.Carrier.Stream.Delivery.{GivesKeys, inbound-outbound}
use reach.Carrier.Stream.Ends.{conn_read-conn_write}
use reach.Carrier.Stream.Totality.{inbound-total}
use reach.Carrier.Stream.{Rand, Received, Conn, inbound, outbound, conn_read, conn_write}

abbrev key : Text
key = 1 ∷ 2 ∷ 3 ∷ 4 ∷ []

abbrev hello_frame : Text
hello_frame = 130 ∷ 133 ∷ 1 ∷ 2 ∷ 3 ∷ 4 ∷ 105 ∷ 103 ∷ 111 ∷ 104 ∷ 110 ∷ []

abbrev keys : Rand
keys = λ i. some key

keys_given : GivesKeys keys
keys_given = λ i. (key, refl, refl)

abbrev sender : Conn
sender = record { incoming = []; read_buf = []; written = []; client = true; frames = 0 }

abbrev receiver : Conn
receiver = record {
  incoming = hello_frame;
  read_buf = [];
  written = [];
  client = false;
  frames = 0;
}

read_frame-write_frame_example :
    read_frame true (hello_frame ++ (7 ∷ []))
    ≡ ok (record { opcode = 2; payload = codes "hello" }, 7 ∷ [])
unfolding write_frame length_bytes mask_from
read_frame-write_frame_example =
    read_frame-write_frame true true key 2 (codes "hello") (7 ∷ []) refl (omega arith) (omega arith)
      (λ h. h) refl

read_frame-bounds_example : (2 ≤ 11) × (5 ≤ max_frame) × (2 < 16)
unfolding read_frame read_first read_byte read_header read_length read_body read_key read_payload
    read_full mask_from
read_frame-bounds_example =
    read_frame-bounds true hello_frame {f = record { opcode = 2; payload = codes "hello" }}
      {rest = []} refl

inbound-total_example :
    (r : Received) × (inbound (length hello_frame + 1) false keys 0 hello_frame ≡ some r)
inbound-total_example = inbound-total false keys 0 hello_frame

inbound-outbound_example :
    inbound 3 false keys 0 (outbound true keys 0 (codes "hello" ∷ codes "you" ∷ []))
    ≡ some (record { plain = codes "helloyou"; replies = []; reason = eof })
inbound-outbound_example =
    inbound-outbound 3 true keys keys (codes "hello" ∷ codes "you" ∷ []) keys_given
      (omega arith, (omega arith, tt)) (omega arith)

conn_read-conn_write_example :
    ((conn_write keys (codes "hello") sender).1 ≡ some 5)
    × (conn_read 1 keys 2 receiver
        ≡ some (record receiver { incoming = []; read_buf = codes "llo" }, ok (codes "he")))
unfolding conn_write write_frame length_bytes mask_from
conn_read-conn_write_example =
    conn_read-conn_write 0 keys keys 2 b'h' (codes "ello") [] sender receiver keys_given
      (omega arith) refl refl refl refl
