-- ===== src/Api/Agents/Ids.antt =====
-- The ids of the queued commands: the key of their table, which the agents' handlers keep.
use reach.Base.{
  ◌⊎◌, ℕ, ◌≡◌, refl, ap, ◌∙◌, inl, inr, Bool, true, false, not, ◌&&◌, List, [], ◌∷◌, ◌++◌, Option,
  none, some, arith, any, map, Text, same, same_iff, Bool-cases, any-append, any-map,
}
use reach.Model.Agent.{AgentCommandInfo}
use reach.Model.Words.{CommandType}
use reach.Model.{Time}
use reach.Provisioner.Commands.{new_command, queue_command, or_same}
use reach.Store.{Db}

abbrev pub ids : List AgentCommandInfo → List Text
ids = map (λ c. c.id)

abbrev pub distinct_texts : List Text → Bool
distinct_texts [] = true
distinct_texts (s ∷ ss) = not (any (λ t. same t s) ss) && distinct_texts ss

-- `agent_commands.id` is a primary key.
abbrev pub unique_commands : Db → Bool
unique_commands db = distinct_texts (ids db.commands)

same_sym : (a b : Text) → same a b ≡ same b a
same_sym a b = ground (arith, same_iff a b, same_iff b a)

pub distinct-append :
    (ss : List Text) (s : Text)
    → distinct_texts ss ≡ true
    → any (λ t. same t s) ss ≡ false
    → distinct_texts (ss ++ s ∷ []) ≡ true
distinct-append [] s u n = refl
distinct-append (x ∷ ss) s u n =
    let rest = distinct-append ss s (ground (arith, u)) (ground (arith, n)) in
    ground (arith, u, n, rest, same_sym x s, any-append (λ t. same t x) ss (s ∷ []))

ids-append : (cs ds : List AgentCommandInfo) → ids (cs ++ ds) ≡ ids cs ++ ids ds
ids-append [] ds = refl
ids-append (c ∷ cs) ds = ap (◌∷◌ c.id) (ids-append cs ds)

-- What a call that queues a command makes of the table.
abbrev pub queued :
    Option Text → Time → Text → ℕ → CommandType → Option Text → ℕ → Db → List AgentCommandInfo
queued id now machine gen kind payload ttl db =
    (or_same db (queue_command id now machine gen kind payload ttl db)).commands

pub queue_command_cases :
    (id : Option Text) (now : Time) (machine : Text) (gen : ℕ) (kind : CommandType)
    (payload : Option Text) (ttl : ℕ) (db : Db)
    → (queued id now machine gen kind payload ttl db ≡ db.commands)
      ⊎ ((x : Text) × (any (λ c. same c.id x) db.commands ≡ false)
          × (queued id now machine gen kind payload ttl db
              ≡ db.commands ++ new_command x now machine gen kind payload ttl ∷ []))
unfolding queue_command
queue_command_cases none now machine gen kind payload ttl db = inl refl
queue_command_cases (some x) now machine gen kind payload ttl db =
    elim (Bool-cases (any (λ c. same c.id x) db.commands)) [
      | inl e ↦ inl (ground (arith, e))
      | inr e ↦ inr (x, e, ground (arith, e))
    ]

-- A command that is queued leaves the ids distinct.
pub queue_command_unique :
    (id : Option Text) (now : Time) (machine : Text) (gen : ℕ) (kind : CommandType)
    (payload : Option Text) (ttl : ℕ) (db : Db)
    → unique_commands db ≡ true
    → distinct_texts (ids (queued id now machine gen kind payload ttl db)) ≡ true
queue_command_unique id now machine gen kind payload ttl db u =
    elim (queue_command_cases id now machine gen kind payload ttl db) [
      | inl e ↦ ap (λ cs. distinct_texts (ids cs)) e ∙ u
      | inr (x, n, e) ↦
          ap (λ cs. distinct_texts (ids cs)) e
          ∙ (ap distinct_texts (ids-append db.commands _)
              ∙ distinct-append (ids db.commands) x u
                  (any-map (λ c. c.id) (λ t. same t x) db.commands ∙ n))
    ]
