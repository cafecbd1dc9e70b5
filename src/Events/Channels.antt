-- ===== src/Events/Channels.antt =====
-- api.go, events.go: what `handleAdminEvents` gives to a client: the replay, the greeting, the channel.
use reach.Base.Int.{ℤ}
use reach.Base.{
  ℕ, suc, ◌+◌, ◌≤◌, ◌≡◌, ap, ◌∙◌, inl, inr, true, false, List, [], ◌∷◌, ◌++◌, Option, none, some,
  arith, ltb, ◌==◌, find, map, length, Text, codes, Bool-cases, length-append, any, take, drop,
}
use reach.Events.{Numbered, numbered, Broker, capacity, offer, broadcast, subscribe, replay_since}
use reach.Events.Replay.{replay_since_lem}
use mathlib.Core.List.{append_assoc, append-nil}
use reach.Store.{Db, Event, publish}

-- Events that are published one after another, while no channel is read.
unfoldable pub broadcast_all : List Event → Broker → Broker
unfolding broadcast
broadcast_all [] b = b
broadcast_all (e ∷ es) b = broadcast_all es (broadcast e.kind e.machine_id b)

-- What waits in a channel.
abbrev waiting_of : Option (ℕ × List Numbered) → List Numbered
waiting_of none = []
waiting_of (some s) = s.1

abbrev pub waiting : ℕ → List (ℕ × List Numbered) → List Numbered
waiting ch subs = waiting_of (find (λ s. s.0 == ch) subs)

waiting-offer :
    (ch : ℕ) (ev : Numbered) (subs : List (ℕ × List Numbered)) (before : List Numbered)
    → find (λ s. s.0 == ch) subs ≡ some (ch, before)
    → ltb (length before) capacity ≡ true
    → find (λ s. s.0 == ch) (map (offer ev) subs) ≡ some (ch, before ++ ev ∷ [])
waiting-offer ch ev [] before h f = cc
waiting-offer ch ev ((c, q) ∷ subs) before h f = elim (Bool-cases (c == ch)) [
  | inl s ↦
      let same_queue : q ≡ before = ground (arith, h, s) in
      let same_channel : c ≡ ch = ground (arith, s) in
      rw (same_queue, same_channel) (ground (arith, f))
  | inr s ↦ ground (arith, s, waiting-offer ch ev subs before (ground (arith, h, s)) f)
]

-- The id that the table gives next.
length-publish :
    (kind machine : Text) (db : Db)
    → length (publish kind machine db).events ≡ suc (length db.events)
length-publish kind machine db =
    length-append db.events (record { kind = kind; machine_id = machine } ∷ []) ∙ omega arith

broadcast_all-waiting :
    (ch : ℕ) (es : List Event) (b : Broker) (before : List Numbered)
    → find (λ s. s.0 == ch) b.subs ≡ some (ch, before)
    → length before + length es ≤ capacity
    → find (λ s. s.0 == ch) (broadcast_all es b).subs
      ≡ some (ch, before ++ numbered (length b.db.events) es)
unfolding broadcast_all broadcast
broadcast_all-waiting ch [] b before h f = rw (append-nil before) h
broadcast_all-waiting ch (e ∷ es) b before h f =
    let next = suc (length b.db.events) in
    let room : ltb (length before) capacity ≡ true = ground arith in
    let one = waiting-offer ch (next, e) b.subs before h room in
    let fits : length (before ++ (next, e) ∷ []) + length es ≤ capacity =
      omega (arith, f, length-append before ((next, e) ∷ [])) in
    broadcast_all-waiting ch es (broadcast e.kind e.machine_id b) (before ++ (next, e) ∷ []) one
      fits
    ∙ ap (λ q. some (ch, q))
        (append_assoc before ((next, e) ∷ []) _
          ∙ ap (λ k. before ++ (next, e) ∷ numbered k es) (length-publish e.kind e.machine_id b.db))

subscribed :
    (ch : ℕ) (subs : List (ℕ × List Numbered))
    → any (λ s. s.0 == ch) subs ≡ false
    → find (λ s. s.0 == ch) (subs ++ (ch, []) ∷ []) ≡ some (ch, [])
subscribed ch [] h = ground arith
subscribed ch (s ∷ subs) h = ground (arith, subscribed ch subs)

length-broadcast_all :
    (es : List Event) (b : Broker)
    → length (broadcast_all es b).db.events ≡ length b.db.events + length es
unfolding broadcast_all broadcast
length-broadcast_all [] b = omega arith
length-broadcast_all (e ∷ es) b = omega (
  arith,
  length-broadcast_all es (broadcast e.kind e.machine_id b),
  length-publish e.kind e.machine_id b.db,
)

-- What the handler writes: the time after which to connect again, in milliseconds, and events. The
-- comments that keep the connection alive are left out.
pub data Sent : Type 0 where
  retry : ℕ → Sent
  event : Numbered → Sent

-- The greeting, whose id is 0.
abbrev pub hello : Numbered
hello = (0, record { kind = codes "hello"; machine_id = [] })

-- What a client is sent that connects with the last id that it knows: the replay, the greeting, and
-- then what comes into its channel. `between` is published after the replay has been read and before
-- the channel is there, `later` after that.
unfoldable pub stream : ℕ → ℤ → List Event → List Event → Broker → List Sent
unfolding replay_since subscribe broadcast_all
stream ch last between later b =
    retry 2000
    ∷ (map event (replay_since last (ℤ.pos 500) b.db)
        ++ event hello
          ∷ map event
              (waiting ch (broadcast_all later (subscribe ch (broadcast_all between b))).subs))

-- A client of the event stream is sent the time of 2000 ms, the stored events behind the last one that
-- it knows, at most 500, in the order of their ids, then the event `hello` with the id 0, and then
-- every event that is published after its channel is there, in the order of their ids, where those are
-- at most 32 before it reads. An event that is published between the reading of the replay and the
-- channel is not sent. This is where the channel is a new one.
pub stream_lem :
    (ch last : ℕ) (between later : List Event) (b : Broker)
    → any (λ s. s.0 == ch) (broadcast_all between b).subs ≡ false
    → length later ≤ capacity
    → stream ch (ℤ.pos last) between later b
      ≡ retry 2000
        ∷ (map event (take 500 (drop last (numbered 0 b.db.events)))
            ++ event hello ∷ map event (numbered (length b.db.events + length between) later))
unfolding stream subscribe
stream_lem ch last between later b new few =
    let b1 = broadcast_all between b in
    let got =
      broadcast_all-waiting ch later (subscribe ch b1) [] (subscribed ch b1.subs new)
        (omega (arith, few)) in
    let behind : waiting ch (broadcast_all later (subscribe ch b1)).subs
        ≡ numbered (length b.db.events + length between) later =
      ap waiting_of got ∙ ap (λ k. numbered k later) (length-broadcast_all between b) in
    let first = (replay_since_lem last (ℤ.pos 500) b.db).0 in
    let replayed = replay_since (ℤ.pos last) (ℤ.pos 500) b.db in
    ap (λ q. retry 2000 ∷ (map event replayed ++ event hello ∷ map event q)) behind
    ∙ ap
        (λ q.
          retry 2000
          ∷ (map event q
              ++ event hello ∷ map event (numbered (length b.db.events + length between) later)))
        first
