-- ===== src/Events.antt =====
-- events.go: the broker of events, the replay of stored events, and the text of an event stream. A
-- row's id is its place in the table, from 1: ids are drawn by AUTOINCREMENT, and no row is deleted.
-- The data of an event is left out of its row, and is an argument where it is written.
pub mod Replay
pub mod Channels
use reach.Base.Int.{ℤ, pos, negsuc}
use reach.Base.{
  ℕ, zero, suc, Bool, true, not, ◌||◌, List, [], ◌∷◌, ◌++◌, Option, none, some, ltb, ◌==◌,
  if◌then◌else◌, select, map, take, length, Text, codes,
}
use reach.Store.{Db, Event, publish}

-- An event with its id.
abbrev pub Numbered : Type 0
Numbered = ℕ × Event

abbrev pub numbered : ℕ → List Event → List Numbered
numbered k [] = []
numbered k (e ∷ es) = (suc k, e) ∷ numbered (suc k) es

-- `limit <= 0 || limit > 1000`
abbrev pub replay_limit : ℤ → ℕ
replay_limit (negsuc n) = 500
replay_limit (pos n) = if n == 0 || ltb 1000 n then 500 else n

abbrev pub is_after : ℤ → Numbered → Bool
is_after (negsuc n) e = true
is_after (pos n) e = ltb n e.0

-- `ReplaySince`
unfoldable pub replay_since : ℤ → ℤ → Db → List Numbered
replay_since last limit db =
    take (replay_limit limit) (select (is_after last) (numbered 0 db.events))

-- The channels of the subscribers with what waits in them, beside the database.
pub record Broker : Type 0 where
  pub db : Db
  pub subs : List (ℕ × List Numbered)

abbrev pub capacity : ℕ
capacity = 32

-- The send that does not wait: a full channel drops the event.
abbrev pub offer : Numbered → ℕ × List Numbered → ℕ × List Numbered
offer ev (ch, waiting) = (ch, if ltb (length waiting) capacity then waiting ++ ev ∷ [] else waiting)

-- `Publish`
unfoldable pub broadcast : Text → Text → Broker → Broker
broadcast kind machine b = record {
  db = publish kind machine b.db;
  subs =
      map (offer (suc (length b.db.events), record { kind = kind; machine_id = machine })) b.subs;
}

-- `Subscribe`, whose channel is a new one.
unfoldable pub subscribe : ℕ → Broker → Broker
subscribe ch b = record b { subs = b.subs ++ (ch, []) ∷ [] }

-- The function that `Subscribe` returns.
unfoldable pub cancel : ℕ → Broker → Broker
cancel ch b = record b { subs = select (λ s. not (s.0 == ch)) b.subs }

-- `writeSSE`: the text of an event with its id, in decimal, and its data as JSON. Both branches of
-- the code write the same.
unfoldable pub write_sse : Text → Text → Text → Text
write_sse id kind payload =
    codes "id: "
    ++ (id ++ (codes "\nevent: " ++ (kind ++ (codes "\ndata: " ++ (payload ++ codes "\n\n")))))

-- `writeSSEComment`
unfoldable pub write_sse_comment : Text → Text → Text
write_sse_comment msg now = codes ": " ++ (msg ++ (b' ' ∷ (now ++ codes "\n\n")))
