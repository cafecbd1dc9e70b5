-- ===== src/MacAgent.antt =====
-- cmd/reach-mac-agent/main.go: `parseSSE`, which reads the stream that events.go writes, and what
-- `bufio.Scanner` makes of a text: its lines, without their ends. Lines are shorter than the
-- scanner's limit of 64 KiB, and the context is not done.
pub mod RoundTrip
use reach.Base.Strings.{cut, join, split}
use reach.Base.{
  Bool, true, not, ◌&&◌, ◌||◌, List, [], ◌∷◌, ◌++◌, Option, none, some, ◌==◌, if◌then◌else◌, map,
  Text, codes, same, has_prefix, trim_prefix,
}

-- The agent's `Event`.
pub record Event : Type 0 where
  pub id : Text
  pub kind : Text
  pub payload : Text

-- The event that is being read, and its data lines.
pub record Reading : Type 0 where
  pub id : Text
  pub kind : Text
  pub lines : List Text

abbrev pub nothing_read : Reading
nothing_read = record { id = []; kind = []; lines = [] }

abbrev has_lines : List Text → Bool
has_lines [] = not true
has_lines (l ∷ ls) = true

-- An empty line ends an event.
abbrev pub finished : Reading → List Event
finished r =
    if not (same r.kind []) || has_lines r.lines
    then record {
      id = r.id;
      kind = if same r.kind [] then codes "message" else r.kind;
      payload = join (codes "\n") r.lines;
    }
      ∷ []
    else []

-- The switch on a field's name.
abbrev pub read_field : Text → Text → Reading → Reading
read_field k v r =
    if same k (codes "id")
    then record r { id = v }
    else if same k (codes "event")
    then record r { kind = v }
    else if same k (codes "data")
    then record r { lines = r.lines ++ v ∷ [] }
    else r

unfoldable pub read_line : Text → Reading → Reading
unfolding has_prefix cut trim_prefix same
read_line line r = if has_prefix line (codes ":") then r else elim (cut b':' line) [
  | none ↦ r
  | some (k, v) ↦ read_field k (trim_prefix v (codes " ")) r
]

-- `parseSSE`: the events that it hands on, of the lines.
unfoldable pub parse_lines : Reading → List Text → List Event
unfolding read_line join same
parse_lines r [] = []
parse_lines r ([] ∷ lines) = finished r ++ parse_lines nothing_read lines
parse_lines r ((c ∷ line) ∷ lines) = parse_lines (read_line (c ∷ line) r) lines

-- `bufio.ScanLines`: a carriage return in front of the end is dropped, and so is an empty last line.
unfoldable pub drop_cr : Text → Text
drop_cr [] = []
drop_cr (c ∷ []) = if c == b'\r' then [] else c ∷ []
drop_cr (c ∷ d ∷ s) = c ∷ drop_cr (d ∷ s)

unfoldable pub drop_end : List Text → List Text
drop_end [] = []
drop_end ([] ∷ []) = []
drop_end ((c ∷ s) ∷ []) = (c ∷ s) ∷ []
drop_end (s ∷ t ∷ ts) = s ∷ drop_end (t ∷ ts)

unfoldable pub parse_sse : Text → List Event
unfolding parse_lines drop_cr drop_end split
parse_sse text = parse_lines nothing_read (map drop_cr (drop_end (split b'\n' text)))
