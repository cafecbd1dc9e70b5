-- ===== src/Agent/HostKeys.antt =====
-- cmd/reach-agent/hostkey_algorithms.go. `net.SplitHostPort`, `path.Match` and
-- `ssh.ParseAuthorizedKey`, of which the code takes the key's type, are arguments, and so are the
-- lines of the file.
pub mod Pinned
use reach.Base.Result.{Result, ok, err, ◌>>=◌}
use reach.Base.Strings.{split}
use reach.Base.Utf8.{Rune, runes, is_space, trim_space}
use reach.Base.{
  Bool, true, false, not, ◌&&◌, ◌||◌, List, [], ◌∷◌, ◌++◌, Option, none, some, ltb, ◌==◌,
  if◌then◌else◌, any, length, map, Text, codes, same, has_prefix, trim_prefix,
}

-- `bytes.Fields`: the parts between white space.
unfoldable pub fields_onto : Text → List Rune → List Text
unfolding is_space same
fields_onto part [] = if same part [] then [] else part ∷ []
fields_onto part (r ∷ rs) =
    let longer = fields_onto (part ++ r.bytes) rs in
    let later = fields_onto [] rs in
    if is_space r.value then (if same part [] then later else part ∷ later) else longer

unfoldable pub fields : Text → List Text
unfolding fields_onto runes
fields s = fields_onto [] (runes s)

abbrev pub join_blank : List Text → Text
join_blank [] = []
join_blank (s ∷ []) = s
join_blank (s ∷ t ∷ ts) = s ++ (b' ' ∷ join_blank (t ∷ ts))

-- A line of known_hosts: its marker, the field of its hosts, and its key.
pub record KnownHost : Type 0 where
  pub marker : Text
  pub hosts : Text
  pub key : Text

abbrev after_marker : Text → List Text → Option KnownHost
after_marker marker (hosts ∷ k ∷ l ∷ rest) =
    some (record { marker = marker; hosts = hosts; key = join_blank (k ∷ l ∷ rest) })
after_marker marker _ = none

abbrev by_marker : List Text → Option KnownHost
by_marker [] = none
by_marker (f ∷ fs) =
    if has_prefix f (codes "@") then after_marker f fs else after_marker [] (f ∷ fs)

-- `splitKnownHostsLine`
unfoldable pub split_known_hosts_line : Text → Option KnownHost
unfolding fields has_prefix
split_known_hosts_line line = if ltb (length (fields line)) 3 then none else by_marker (fields line)

pub data HostError : Type 0 where
  bad_address bad_pattern bad_line bad_key no_keys : HostError

-- What the functions take of other packages.
pub record Parsers : Type 0 where
  pub split_host_port : Text → Option (Text × Text)
  pub path_match : Text → Text → Option Bool
  pub key_type : Text → Option Text

module _ (p : Parsers) where
  abbrev or_port_22 : Text → Option (Text × Text) → Text × Text
  or_port_22 pattern none = (pattern, codes "22")
  or_port_22 pattern (some hp) = hp

  abbrev or_bad : Option (Text × Text) → Result HostError (Text × Text)
  or_bad none = err bad_address
  or_bad (some hp) = ok hp

  unfoldable pub split_known_hosts_pattern : Text → Result HostError (Text × Text)
  unfolding has_prefix
  split_known_hosts_pattern pattern =
      if has_prefix pattern (codes "[")
      then or_bad (p.split_host_port pattern)
      else ok (or_port_22 pattern (p.split_host_port pattern))

  abbrev or_bad_pattern : Option Bool → Result HostError Bool
  or_bad_pattern none = err bad_pattern
  or_bad_pattern (some b) = ok b

  unfoldable pub known_hosts_pattern_matches : Text → Text → Text → Result HostError Bool
  unfolding split_known_hosts_pattern same
  known_hosts_pattern_matches pattern host port = split_known_hosts_pattern pattern >>= λ hp.
      if not (same hp.1 port)
      then ok false
      else if same hp.0 host
      then ok true
      else or_bad_pattern (p.path_match hp.0 host)

  abbrev pub negates : Text → Bool
  negates pattern = has_prefix pattern (codes "!")

  abbrev pub positive : Text → Text
  positive pattern = if negates pattern then trim_prefix pattern (codes "!") else pattern

  -- A pattern that a round of the loop passes over.
  abbrev pub is_skipped : Text → Bool
  is_skipped pattern = same pattern [] || has_prefix (positive pattern) (codes "|")

  -- The loop over the trimmed patterns, with `matched`.
  unfoldable pub match_patterns : Text → Text → Bool → List Text → Result HostError Bool
  unfolding known_hosts_pattern_matches has_prefix trim_prefix same
  match_patterns host port matched [] = ok matched
  match_patterns host port matched (pattern ∷ rest) =
      let unchanged = match_patterns host port matched rest in
      let found = match_patterns host port true rest in
      if is_skipped pattern
      then unchanged
      else known_hosts_pattern_matches (positive pattern) host port >>= λ hit.
          if not hit then unchanged else if negates pattern then ok false else found

  abbrev pub patterns_of : Text → List Text
  patterns_of hosts = map trim_space (split b',' hosts)

  -- `knownHostsFieldMatches`
  unfoldable pub known_hosts_field_matches : Text → Text → Text → Result HostError Bool
  unfolding match_patterns split trim_space
  known_hosts_field_matches hosts host port = match_patterns host port false (patterns_of hosts)

  abbrev is_marked : Text → Bool
  is_marked marker = same marker (codes "@revoked") || same marker (codes "@cert-authority")

  -- `if !seen[alg] { … }`
  abbrev pub put_new : Text → List Text → List Text
  put_new alg out = if any (same alg) out then out else out ++ alg ∷ []

  abbrev put_key : Option Text → List Text → Result HostError (List Text)
  put_key none out = err bad_key
  put_key (some alg) out = ok (put_new alg out)

  abbrev add_match : Text → List Text → Bool → Result HostError (List Text)
  add_match key out false = ok out
  add_match key out true = put_key (p.key_type key) out

  abbrev add_host : Text → Text → Option KnownHost → List Text → Result HostError (List Text)
  add_host host port none out = err bad_line
  add_host host port (some k) out =
      if is_marked k.marker
      then ok out
      else known_hosts_field_matches k.hosts host port >>= add_match k.key out

  abbrev is_comment : Text → Bool
  is_comment line = same line [] || has_prefix line (codes "#")

  -- The body of the loop over the lines.
  unfoldable pub add_line : Text → Text → Text → List Text → Result HostError (List Text)
  unfolding known_hosts_field_matches split_known_hosts_line trim_space has_prefix same
  add_line host port line out =
      if is_comment (trim_space line)
      then ok out
      else add_host host port (split_known_hosts_line (trim_space line)) out

  unfoldable pub add_lines : Text → Text → List Text → List Text → Result HostError (List Text)
  unfolding add_line
  add_lines host port [] out = ok out
  add_lines host port (line ∷ lines) out =
      add_line host port line out >>= λ out'. add_lines host port lines out'

  abbrev some_keys : List Text → Result HostError (List Text)
  some_keys [] = err no_keys
  some_keys (k ∷ ks) = ok (k ∷ ks)

  -- `pinnedHostKeyAlgorithmsFromKnownHosts`
  unfoldable pub pinned_algorithms : List Text → Text → Result HostError (List Text)
  unfolding add_lines
  pinned_algorithms lines target = elim (p.split_host_port target) [
    | none ↦ err bad_address
    | some (host, port) ↦ add_lines host port lines [] >>= some_keys
  ]

-- The loop of `intersectAlgorithms`, with the algorithms that it has seen.
unfoldable pub intersect_onto : List Text → List Text → List Text → List Text
unfolding same
intersect_onto pinned seen [] = []
intersect_onto pinned seen (alg ∷ requested) =
    let kept = alg ∷ intersect_onto pinned (alg ∷ seen) requested in
    let passed = intersect_onto pinned seen requested in
    if any (same alg) pinned && not (any (same alg) seen) then kept else passed

unfoldable pub intersect_algorithms : List Text → List Text → List Text
unfolding intersect_onto
intersect_algorithms requested pinned = intersect_onto pinned [] requested
