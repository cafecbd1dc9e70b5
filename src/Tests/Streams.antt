-- ===== src/Tests/Streams.antt =====
-- The theorems on event streams, process titles, host keys and the updater's arguments.
use reach.Agent.Binary.Flags.{Stripped, strip_update_worker_only_args-Stripped}
use reach.Agent.Binary.{strip_update_worker_only_args}
use reach.Agent.HostKeys.Pinned.{
  refrains, is_in, distinct_names, known_hosts_field_matches-all, intersect_algorithms_lem,
}
use reach.Agent.HostKeys.{Parsers, patterns_of, known_hosts_field_matches, intersect_algorithms}
use reach.Agent.Titles.Rotation.{
  IsShowing, Step, updates, advances, take_steps, take_steps-IsShowing,
}
use reach.Agent.Titles.{ProcessTitleController}
use reach.Base.Int.{pos}
use reach.Base.Utf8.{valid_utf8}
use reach.Base.{
  map, ◌≤◌, ◌≡◌, refl, true, ◌&&◌, ◌||◌, List, [], ◌∷◌, ◌++◌, none, some, arith, leb, all, length,
  take, drop, Text, codes, same,
}
use reach.Events.Channels.{Sent, retry, hello, broadcast_all, stream, stream_lem}
use reach.Events.{Broker, numbered}
use reach.MacAgent.RoundTrip.{Item, event, comment}
use reach.Model.Agent.{ProcessTitleConfig}
use reach.Provisioner.Titles.Bounds.{truncate_utf8_lem, normalize_titles-bounds}
use reach.Provisioner.Titles.{truncate_utf8, normalize_titles}
use reach.Store.{Event}
use reach.Tests.Data.{db}

abbrev broker : Broker
broker = record {
  db = record db { events = record { kind = codes "hello"; machine_id = [] } ∷ [] };
  subs = (1, []) ∷ [];
}

abbrev seen : Event
seen = record { kind = codes "machine.online"; machine_id = codes "m_1" }

stream_lem_example :
    stream 2 (pos 0) (seen ∷ []) (seen ∷ seen ∷ []) broker
    ≡ retry 2000
      ∷ (map Sent.event (take 500 (drop 0 (numbered 0 broker.db.events)))
          ++ Sent.event hello ∷ map Sent.event (numbered 2 (seen ∷ seen ∷ [])))
unfolding broadcast_all
stream_lem_example = stream_lem 2 0 (seen ∷ []) (seen ∷ seen ∷ []) broker refl (omega arith)

abbrev items : List Item
items =
    comment (codes "keepalive") (codes "2026-01-01")
    ∷ event (record { id = codes "7"; kind = codes "machine.online"; payload = codes "{}" })
    ∷ []

-- "aé" in three bytes, cut in the middle of its second rune.
abbrev accented : Text
accented = b'a' ∷ 0xc3 ∷ 0xa9 ∷ []

truncate_utf8_lem_example :
    (length (truncate_utf8 accented 2) ≤ 2)
    × ((rest : Text) × (truncate_utf8 accented 2 ++ rest ≡ accented))
    × ((leb (length accented) 2 || valid_utf8 (truncate_utf8 accented 2)) ≡ true)
truncate_utf8_lem_example = truncate_utf8_lem accented 2

cut_test : truncate_utf8 accented 2 ≡ b'a' ∷ []
unfolding truncate_utf8
cut_test = refl

abbrev titled : ProcessTitleConfig
titled = record {
  process_title = codes "a";
  process_titles = codes "a" ∷ codes "b" ∷ [];
  rotate_interval = [];
}

normalize_titles-bounds_example :
    (length titled.process_title ≤ 4096)
    × (length titled.process_titles ≤ 20)
    × (all (λ t. leb (length t) 4096) titled.process_titles ≡ true)
unfolding normalize_titles
normalize_titles-bounds_example = normalize_titles-bounds (λ s. none) titled titled refl

abbrev parsers : Parsers
parsers = record {
  split_host_port = λ s. none;
  path_match = λ pattern name. some (same pattern name);
  key_type = λ key. some (codes "ssh-ed25519");
}

known_hosts_field_matches-all_example :
    all (refrains parsers (codes "hub") (codes "22")) (patterns_of parsers (codes "hub,!old"))
    ≡ true
unfolding known_hosts_field_matches same
known_hosts_field_matches-all_example =
    known_hosts_field_matches-all parsers (codes "hub") (codes "22") (codes "hub,!old") refl

abbrev requested : List Text
requested = codes "ssh-ed25519" ∷ codes "ssh-rsa" ∷ codes "ssh-ed25519" ∷ []

intersect_algorithms_lem_example :
    ((name : Text)
      → is_in (intersect_algorithms requested (codes "ssh-ed25519" ∷ [])) name
        ≡ (is_in requested name && is_in (codes "ssh-ed25519" ∷ []) name))
    × (distinct_names (intersect_algorithms requested (codes "ssh-ed25519" ∷ [])) ≡ true)
intersect_algorithms_lem_example = intersect_algorithms_lem requested (codes "ssh-ed25519" ∷ [])

abbrev controller : ProcessTitleController
controller = record {
  titles = codes "one" ∷ codes "two" ∷ [];
  interval = pos 5;
  index = 1;
  shown = codes "two";
}

abbrev steps : List Step
steps = advances ∷ updates (record { titles = codes "new" ∷ []; interval = pos 9 }) ∷ advances ∷ []

take_steps-IsShowing_example : IsShowing (take_steps steps controller)
take_steps-IsShowing_example =
    take_steps-IsShowing steps controller (record { within_titles = refl; shows = refl })

abbrev args : List Text
args = codes "--install-env" ∷ codes "/x" ∷ codes "--version" ∷ codes "--foreground" ∷ []

strip_update_worker_only_args-Stripped_example :
    Stripped args (strip_update_worker_only_args args)
    × (strip_update_worker_only_args (strip_update_worker_only_args args)
        ≡ strip_update_worker_only_args args)
strip_update_worker_only_args-Stripped_example = strip_update_worker_only_args-Stripped args
