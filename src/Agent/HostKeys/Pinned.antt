-- ===== src/Agent/HostKeys/Pinned.antt =====
-- cmd/reach-agent/hostkey_algorithms.go: negated patterns, and the algorithms that are offered.
use reach.Agent.HostKeys.{
  HostError, Parsers, known_hosts_pattern_matches, negates, positive, is_skipped, match_patterns,
  patterns_of, known_hosts_field_matches, intersect_onto, intersect_algorithms,
}
use reach.Base.Result.{Result, ok, err, ◌>>=◌, bind-eq-ok}
use reach.Base.{
  ◌≡◌, refl, ap, inl, inr, Bool, true, false, not, ◌&&◌, ◌||◌, List, [], ◌∷◌, arith, if◌then◌else◌,
  any, all, Text, same, same_iff, same_refl, Bool-cases,
}

abbrev misses : Result HostError Bool → Bool
misses (ok b) = not b
misses (err e) = false

-- A pattern that counts and that is negated does not match the host.
abbrev pub refrains : Parsers → Text → Text → Text → Bool
refrains p host port pattern =
    is_skipped p pattern
    || not (negates p pattern)
    || misses (known_hosts_pattern_matches p (positive p pattern) host port)

module _ (p : Parsers) (host port : Text) where
  match_patterns-all :
      (matched : Bool) (patterns : List Text)
      → match_patterns p host port matched patterns ≡ ok true
      → all (refrains p host port) patterns ≡ true
  unfolding match_patterns
  match_patterns-all matched [] h = refl
  match_patterns-all matched (pattern ∷ rest) h = elim (Bool-cases (is_skipped p pattern)) [
    | inl s ↦
        let more = match_patterns-all matched rest (ground (arith, h, s)) in ground (arith, s, more)
    | inr s ↦
        let k : (known_hosts_pattern_matches p (positive p pattern) host port >>= λ hit.
        if not hit
        then match_patterns p host port matched rest
        else if negates p pattern
        then ok false
        else match_patterns p host port true rest)
            ≡ ok true =
          ground (arith, h, s) in
        let (hit, m, e) =
          bind-eq-ok (known_hosts_pattern_matches p (positive p pattern) host port) _ k in
        elim (Bool-cases hit) [
          | inr missed ↦
              let more = match_patterns-all matched rest (ground (arith, e, missed)) in
              ground (arith, m, missed, more)
          | inl found ↦ elim (Bool-cases (negates p pattern)) [
            | inl n ↦ absurd (ground (arith, e, found, n))
            | inr n ↦
                let more = match_patterns-all true rest (ground (arith, e, found, n)) in
                ground (arith, n, more)
          ]
        ]
  ]

  -- Where the field of a line of known_hosts is found to match a host, no negated pattern of the
  -- field matches that host, in whatever order the patterns stand; hashed patterns do not count.
  pub known_hosts_field_matches-all :
      (hosts : Text)
      → known_hosts_field_matches p hosts host port ≡ ok true
      → all (refrains p host port) (patterns_of p hosts) ≡ true
  unfolding known_hosts_field_matches
  known_hosts_field_matches-all hosts h = match_patterns-all false (patterns_of p hosts) h

abbrev pub is_in : List Text → Text → Bool
is_in names name = any (same name) names

abbrev pub distinct_names : List Text → Bool
distinct_names [] = true
distinct_names (n ∷ ns) = not (is_in ns n) && distinct_names ns

-- One algorithm of the loop, on the outcome of its two tests.
abbrev kept_if : Bool → Text → List Text → List Text → List Text
kept_if b alg later rest = if b then alg ∷ later else rest

-- What is offered is what is requested, pinned and not seen before.
is_in-kept_if :
    (pinned seen : List Text) (name alg : Text) (later rest requested : List Text)
    → is_in later name
      ≡ (is_in requested name && is_in pinned name && not (is_in (alg ∷ seen) name))
    → is_in rest name ≡ (is_in requested name && is_in pinned name && not (is_in seen name))
    → is_in (kept_if (is_in pinned alg && not (is_in seen alg)) alg later rest) name
      ≡ (is_in (alg ∷ requested) name && is_in pinned name && not (is_in seen name))
is_in-kept_if pinned seen name alg later rest requested l r = elim (Bool-cases (same name alg)) [
  | inl s ↦
      let one : name ≡ alg = (same_iff name alg).0 s in
      ground (arith, l, r, s, ap (is_in pinned) one, ap (is_in seen) one)
  | inr s ↦ ground (arith, l, r, s)
]

is_in_intersect :
    (pinned seen requested : List Text) (name : Text)
    → is_in (intersect_onto pinned seen requested) name
      ≡ (is_in requested name && is_in pinned name && not (is_in seen name))
unfolding intersect_onto
is_in_intersect pinned seen [] name = refl
is_in_intersect pinned seen (alg ∷ requested) name =
    is_in-kept_if pinned seen name alg (intersect_onto pinned (alg ∷ seen) requested)
      (intersect_onto pinned seen requested) requested
      (is_in_intersect pinned (alg ∷ seen) requested name)
      (is_in_intersect pinned seen requested name)

distinct_kept_if :
    (b : Bool) (alg : Text) (later rest : List Text)
    → is_in later alg ≡ false
    → distinct_names later ≡ true
    → distinct_names rest ≡ true
    → distinct_names (kept_if b alg later rest) ≡ true
distinct_kept_if true alg later rest n l r = ground (arith, n, l)
distinct_kept_if false alg later rest n l r = r

distinct_intersect :
    (pinned seen requested : List Text)
    → distinct_names (intersect_onto pinned seen requested) ≡ true
unfolding intersect_onto
distinct_intersect pinned seen [] = refl
distinct_intersect pinned seen (alg ∷ requested) =
    distinct_kept_if (is_in pinned alg && not (is_in seen alg)) alg
      (intersect_onto pinned (alg ∷ seen) requested) (intersect_onto pinned seen requested)
      (ground (arith, is_in_intersect pinned (alg ∷ seen) requested alg, same_refl alg))
      (distinct_intersect pinned (alg ∷ seen) requested) (distinct_intersect pinned seen requested)

-- The algorithms that the agent offers are those that are both requested and pinned, each once.
pub intersect_algorithms_lem :
    (requested pinned : List Text)
    → ((name : Text)
        → is_in (intersect_algorithms requested pinned) name
          ≡ (is_in requested name && is_in pinned name))
      × (distinct_names (intersect_algorithms requested pinned) ≡ true)
unfolding intersect_algorithms
intersect_algorithms_lem requested pinned = (
  λ name. ground (arith, is_in_intersect pinned [] requested name),
  distinct_intersect pinned [] requested,
)
