-- ===== src/Events/Replay.antt =====
-- events.go: which events a replay gives.
use reach.Base.Int.{ℤ, pos, negsuc}
use reach.Base.{
  ℕ, zero, suc, ◌+◌, ◌≤◌, ◌≡◌, refl, ap, false, List, [], ◌∷◌, arith, ltb, select, take, drop,
}
use reach.Events.{Numbered, numbered, is_after, replay_limit, replay_since}
use reach.Store.{Db, Event}

select_all :
    (last k : ℕ) (es : List Event)
    → last ≤ k
    → select (is_after (pos last)) (numbered k es) ≡ numbered k es
select_all last k [] h = refl
select_all last k (e ∷ es) h =
    let rest = select_all last (suc k) es (omega arith) in ground (arith, rest)

select-drop :
    (last n k : ℕ) (es : List Event)
    → last ≡ n + k
    → select (is_after (pos last)) (numbered k es) ≡ drop n (numbered k es)
select-drop last zero k es h = select_all last k es (omega arith)
select-drop last (suc n) k [] h = refl
select-drop last (suc n) k (e ∷ es) h =
    let rest = select-drop last n (suc k) es (omega arith) in
    let not_yet : ltb last (suc k) ≡ false = ground arith in ground (arith, rest, not_yet)

select_true : (n : ℕ) (es : List Numbered) → select (is_after (negsuc n)) es ≡ es
select_true n [] = refl
select_true n (e ∷ es) = ap (◌∷◌ e) (select_true n es)

-- The limit, on either side of the range that the code takes.
abbrev page : ℤ → ℕ → List Numbered → List Numbered
page limit last es = take (replay_limit limit) (drop last es)

-- A replay since the event n gives the events behind the first n, in their order, up to the limit,
-- which is 500 where the given one is not between 1 and 1000; a negative last id counts as 0.
pub replay_since_lem :
    (n : ℕ) (limit : ℤ) (db : Db)
    → (replay_since (pos n) limit db ≡ page limit n (numbered 0 db.events))
      × (replay_since (negsuc n) limit db ≡ page limit 0 (numbered 0 db.events))
unfolding replay_since
replay_since_lem n limit db = (
  ap (take (replay_limit limit)) (select-drop n n 0 db.events (omega arith)),
  ap (take (replay_limit limit)) (select_true n (numbered 0 db.events)),
)
