-- ===== src/Carrier/Stream.antt =====
-- internal/wscarrier/wscarrier.go: the two loops of `pump`, and `Read`, `Write` and `Close` of
-- `wsConn`. A connection's writes are the bytes that reach the peer, and its read side is the bytes
-- that have come from the peer. The i-th frame that one end masks takes its key from `rand i`.
pub mod Delivery
pub mod Totality
pub mod Ends
use reach.Base.Result.{Result, ok, err}
use reach.Base.{
  ℕ, zero, suc, ◌+◌, Bool, true, false, not, ◌||◌, List, [], ◌∷◌, ◌++◌, Option, none, some, ◌==◌,
  if◌then◌else◌, length, take, drop, Text,
}
use reach.Carrier.Frame.{Error, eof, Frame, read_frame, write_frame}

abbrev pub Rand : Type 0
Rand = ℕ → Option Text

-- `_ = writeFrame(…)`: what reaches the connection where the error is dropped.
abbrev pub sent : Option Text → Text
sent none = []
sent (some frame) = frame

-- The goroutine from the plain side: one entry for each `plainIn.Read`, the bytes it returned, until
-- it returns an error. A failed write ends the loop.
unfoldable pub outbound : Bool → Rand → ℕ → List Text → Text
outbound client rand i [] = sent (write_frame (rand i) 8 [] client)
outbound client rand i (buf ∷ bufs) =
    let skip = outbound client rand i bufs in
    let more = outbound client rand (i + 1) bufs in
    if length buf == 0
    then skip
    else elim (write_frame (rand i) 2 buf client) [ none ↦ [] | some frame ↦ frame ++ more ]

-- What the goroutine from the WebSocket side has written when it stops, and why it stops.
pub record Received : Type 0 where
  pub plain : Text
  pub replies : Text
  pub reason : Error

abbrev pub deliver : Text → Option Received → Option Received
deliver payload none = none
deliver payload (some r) = some (record r { plain = payload ++ r.plain })

abbrev pub reply : Text → Option Received → Option Received
reply frame none = none
reply frame (some r) = some (record r { replies = frame ++ r.replies })

abbrev pub stopped : Error → Option Received
stopped e = some (record { plain = []; replies = []; reason = e })

-- One round of that goroutine, with what the later rounds give: with and without a frame written.
abbrev pub dispatch :
    Bool → Option Text → Frame → Option Received → Option Received → Option Received
dispatch client key f same later =
    if f.opcode == 1 || f.opcode == 2
    then deliver f.payload same
    else if f.opcode == 8
    then stopped eof
    else if f.opcode == 9
    then reply (sent (write_frame key 10 f.payload client)) later
    else same

-- `none` where the fuel runs out.
unfoldable pub inbound : ℕ → Bool → Rand → ℕ → Text → Option Received
inbound zero client rand i s = none
inbound (suc n) client rand i s = elim (read_frame (not client) s) [
  | err e ↦ stopped e
  | ok (f, rest) ↦
      dispatch client (rand i) f (inbound n client rand i rest) (inbound n client rand (i + 1) rest)
]

-- `wsConn`: the bytes still to come, the read buffer, and the frames written so far.
pub record Conn : Type 0 where
  pub incoming : Text
  pub read_buf : Text
  pub written : Text
  pub client : Bool
  pub frames : ℕ

-- `bytes.Buffer.Read` into n bytes.
abbrev read_buffer : ℕ → Conn → Conn × Text
read_buffer n c = (record c { read_buf = drop n c.read_buf }, take n c.read_buf)

-- The write of one frame, where the error is dropped.
abbrev put_frame : Rand → ℕ → Text → Conn → Conn
put_frame rand opcode payload c = record c {
  written = c.written ++ sent (write_frame (rand c.frames) opcode payload c.client);
  frames = c.frames + 1;
}

-- The loop of `Read`, on fuel.
unfoldable pub read_loop : ℕ → Rand → ℕ → Conn → Option (Conn × Result Error Text)
read_loop zero rand n c = none
read_loop (suc fuel) rand n c = elim (read_frame (not c.client) c.incoming) [
  | err e ↦ some (c, err e)
  | ok (f, rest) ↦
      let c' = record c { incoming = rest } in
      let again = read_loop fuel rand n c' in
      let answered = read_loop fuel rand n (put_frame rand 10 f.payload c') in
      let (c'', out) = read_buffer n (record c' { read_buf = f.payload }) in
      if f.opcode == 1 || f.opcode == 2
      then (if length f.payload == 0 then again else some (c'', ok out))
      else if f.opcode == 8
      then some (c', err eof)
      else if f.opcode == 9
      then answered
      else again
]

unfoldable pub conn_read : ℕ → Rand → ℕ → Conn → Option (Conn × Result Error Text)
unfolding read_loop
conn_read fuel rand n c =
    if length c.read_buf == 0
    then read_loop fuel rand n c
    else (let (c', out) = read_buffer n c in some (c', ok out))

-- `Write`: the number of bytes written, or `none` where no key could be drawn.
unfoldable pub conn_write : Rand → Text → Conn → Conn × Option ℕ
conn_write rand p c = elim (write_frame (rand c.frames) 2 p c.client) [
  | none ↦ (c, none)
  | some frame ↦ (record c { written = c.written ++ frame; frames = c.frames + 1 }, some (length p))
]

-- `Close` writes the closing frame; the connection below is closed by the caller's runtime.
unfoldable pub conn_close : Rand → Conn → Conn
conn_close rand c = put_frame rand 8 [] c
