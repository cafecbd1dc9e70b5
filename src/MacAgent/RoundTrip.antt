-- ===== src/MacAgent/RoundTrip.antt =====
-- events.go, cmd/reach-mac-agent/main.go: what the hub writes to a stream is what the agent reads.
use reach.Base.{Bool, not, ◌&&◌, List, [], ◌∷◌, ◌++◌, ◌==◌, all, gather, Text, codes, same}
use reach.Events.{write_sse, write_sse_comment}
use reach.MacAgent.{Event}

-- What the hub writes: an event, or a comment that keeps the connection alive.
pub data Item : Type 0 where
  event : Event → Item
  comment : (msg now : Text) → Item

unfoldable pub write_item : Item → Text
unfolding write_sse write_sse_comment
write_item (event e) = write_sse e.id e.kind e.payload
write_item (comment msg now) = write_sse_comment msg now

unfoldable pub write_stream : List Item → Text
unfolding write_item
write_stream [] = []
write_stream (i ∷ is) = write_item i ++ write_stream is

abbrev pub events_of : List Item → List Event
events_of [] = []
events_of (event e ∷ is) = e ∷ events_of is
events_of (comment msg now ∷ is) = events_of is

-- A text without the bytes that end a line.
abbrev pub clean : Text → Bool
clean = all (λ c. not (c == b'\n') && not (c == b'\r'))

abbrev pub is_clean : Item → Bool
is_clean (event e) = not (same e.kind []) && clean e.id && clean e.kind && clean e.payload
is_clean (comment msg now) = clean msg && clean now

item_lines : Item → List Text
item_lines (event e) =
    (codes "id: " ++ e.id) ∷ (codes "event: " ++ e.kind) ∷ (codes "data: " ++ e.payload) ∷ [] ∷ []
item_lines (comment msg now) = (codes ": " ++ (msg ++ b' ' ∷ now)) ∷ [] ∷ []

all_lines : List Item → List Text
all_lines = gather item_lines
