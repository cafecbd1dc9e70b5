-- ===== src/Carrier/Stream/Ends.antt =====
-- internal/wscarrier/wscarrier.go: `wsConn`. What one end writes, the other end reads.
use reach.Base.{
  ℕ, suc, ◌+◌, ◌≤◌, ◌≡◌, ap, ◌∙◌, true, false, not, [], ◌∷◌, ◌++◌, some, arith, ◌==◌, length, take,
  drop, Text,
}
use reach.Base.Result.{ok}
use reach.Carrier.Frame.{max_frame, read_frame, write_frame}
use reach.Carrier.Stream.Delivery.{GivesKeys, frame_crosses}
use reach.Carrier.Stream.{Rand, Conn, conn_read, conn_write, read_loop}

read_loop_data :
    (fuel : ℕ) (rand : Rand) (n b : ℕ) (bs rest : Text) (d : Conn)
    → read_frame (not d.client) d.incoming ≡ ok (record { opcode = 2; payload = b ∷ bs }, rest)
    → read_loop (suc fuel) rand n d
      ≡ some (record d { incoming = rest; read_buf = drop n (b ∷ bs) }, ok (take n (b ∷ bs)))
unfolding read_loop
read_loop_data fuel rand n b bs rest d reads =
    let full : (length (b ∷ bs) == 0) ≡ false = ground arith in rw (reads, read_loop) (rw full)

conn_write_frame :
    (rand : Rand) (p : Text) (c : Conn) {key frame : Text}
    → rand c.frames ≡ some key
    → write_frame (some key) 2 p c.client ≡ some frame
    → conn_write rand p c
      ≡ (record c { written = c.written ++ frame; frames = c.frames + 1 }, some (length p))
unfolding conn_write
conn_write_frame rand p c drawn wrote = rw (drawn, wrote, conn_write)

conn_read_empty :
    (fuel : ℕ) (rand : Rand) (n : ℕ) (d : Conn)
    → d.read_buf ≡ []
    → conn_read fuel rand n d ≡ read_loop fuel rand n d
unfolding conn_read
conn_read_empty fuel rand n d empty =
    let test : (length d.read_buf == 0) ≡ true = ap (λ t. length t == 0) empty in rw test

-- A non-empty write of at most 16 MiB, by an end whose random source gives keys, reports the length
-- of what it was given; and where its frame is the next to come at the other end, whose read buffer
-- is empty, `Read` into n bytes returns the first n bytes of what was written, keeps the others in
-- the buffer, and leaves the bytes behind the frame.
pub conn_read-conn_write :
    (fuel : ℕ) (rand rand' : Rand) (n b : ℕ) (bs rest : Text) (c d : Conn)
    → GivesKeys rand
    → length (b ∷ bs) ≤ max_frame
    → c.written ≡ []
    → d.client ≡ not c.client
    → d.read_buf ≡ []
    → d.incoming ≡ (conn_write rand (b ∷ bs) c).0.written ++ rest
    → ((conn_write rand (b ∷ bs) c).1 ≡ some (length (b ∷ bs)))
      × (conn_read (suc fuel) rand' n d
          ≡ some (record d { incoming = rest; read_buf = drop n (b ∷ bs) }, ok (take n (b ∷ bs))))
conn_read-conn_write fuel rand rand' n b bs rest c d keys fits fresh other empty comes =
    let (key, drawn, four) = keys c.frames in
    let (frame, wrote, reads) = frame_crosses c.client key 2 (b ∷ bs) four (omega arith) fits in
    let writes = conn_write_frame rand (b ∷ bs) c drawn wrote in
    let arrives : d.incoming ≡ frame ++ rest =
      comes ∙ ap (λ t. t.0.written ++ rest) writes ∙ ap (λ t. (t ++ frame) ++ rest) fresh in
    let read : read_frame (not d.client) d.incoming
        ≡ ok (record { opcode = 2; payload = b ∷ bs }, rest) =
      rw (other, arrives) (reads rest) in
    (
      ap (λ t. t.1) writes,
      conn_read_empty (suc fuel) rand' n d empty ∙ read_loop_data fuel rand' n b bs rest d read,
    )
