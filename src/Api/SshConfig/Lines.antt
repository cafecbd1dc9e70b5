-- ===== src/Api/SshConfig/Lines.antt =====
-- api.go: the lines of the generated configuration. No name that a machine, a hub or an agent has
-- given adds a line of its own to it.
use reach.Api.SshConfig.{
  HostRow, allowed_options, is_allowed_option, option_blanks, keep_option, read_option,
  ssh_config_client_options, option_line, host_lines, or_default, check_row, write_hosts,
  head_lines, host_rows, host_rows_of, is_listed, carries, generate_ssh_config,
}
use reach.Base.Int.{ℤ, decimal_ℤ}
use reach.Base.Result.{ok, bind-eq-ok}
use reach.Base.Sort.{all-sort_by, le_text}
use reach.Base.Split.{plain, unlines, split-unlines}
use reach.Base.Strings.{cut, decimal, decimal_onto}
use reach.Base.Utf8.{trim_space}
use reach.Base.{
  ℕ, zero, suc, ◌+◌, ◌/◌, ◌%◌, ◌≡◌, refl, ap, ◌∙◌, inl, inr, Bool, true, false, ◌&&◌, List, [], ◌∷◌,
  ◌++◌, Option, arith, ◌==◌, any, all, select, gather, map, Text, codes, same, same_iff, has_prefix,
  contains_any, Bool-cases, Option-cases, all-append, any-append, all-map, split, all-gather,
  select-append, all-gather_fit, all-select_found, all_weaken, any_weaken, all-true, same_refl,
}
use mathlib.Core.List.{append-nil}
use reach.Model.{Machine}
use reach.Security.Slug.{valid_slug, is_slug_byte, is_alnum}
use reach.Security.Tokens.{valid_ssh_config_token, is_token_byte}
use reach.Store.{Db}

plain-append : (s t : Text) → plain (s ++ t) ≡ (plain s && plain t)
plain-append s t = ground (arith, any-append (λ c. c == b'\n') s t)

slug_plain : (s : Text) → all is_slug_byte s ≡ true → plain s ≡ true
unfolding is_alnum
slug_plain [] h = refl
slug_plain (c ∷ s) h = ground (arith, slug_plain s)

token_plain : (s : Text) → all is_token_byte s ≡ true → plain s ≡ true
token_plain [] h = refl
token_plain (c ∷ s) h = ground (arith, token_plain s)

valid_slug_plain : (s : Text) → valid_slug s ≡ true → plain s ≡ true
unfolding valid_slug
valid_slug_plain s h = slug_plain s (ground (arith, h))

valid_token_plain : (s : Text) → valid_ssh_config_token s ≡ true → plain s ≡ true
unfolding valid_ssh_config_token
valid_token_plain s h = token_plain s (ground (arith, h))

decimal_onto_plain :
    (k n : ℕ) (rest : Text) → plain rest ≡ true → plain (decimal_onto k n rest) ≡ true
unfolding decimal_onto
decimal_onto_plain zero n rest h = ground arith
decimal_onto_plain (suc k) n rest h =
    let here : plain ((n % 10 + 48) ∷ rest) ≡ true = ground arith in
    ground (arith, here, decimal_onto_plain k (n / 10) ((n % 10 + 48) ∷ rest) here)

decimal_plain : (p : ℤ) → plain (decimal_ℤ p) ≡ true
unfolding decimal_ℤ decimal
decimal_plain (ℤ.pos n) = decimal_onto_plain n n [] refl
decimal_plain (ℤ.negsuc n) = ground (arith, decimal_onto_plain (suc n) (suc n) [] refl)

one_of_plain :
    (name : Text) (names : List Text)
    → all plain names ≡ true
    → any (same name) names ≡ true
    → plain name ≡ true
one_of_plain name [] a h = cc
one_of_plain name (x ∷ names) a h = elim (Bool-cases (same name x)) [
  | inl s ↦ rw ((same_iff name x).0 s) (ground (arith, a))
  | inr s ↦ one_of_plain name names (ground (arith, a)) (ground (arith, h, s))
]

blanks_plain : (s : Text) → contains_any s option_blanks ≡ false → plain s ≡ true
unfolding contains_any
blanks_plain [] h = refl
blanks_plain (c ∷ s) h = ground (arith, blanks_plain s)

abbrev line_plain : Text × Text → Bool
line_plain o = plain (option_line o)

keep_option_plain : (o : Text × Text) → all line_plain (keep_option o) ≡ true
unfolding keep_option
keep_option_plain (name, value) = elim (Bool-cases (is_allowed_option name)) [
  | inr e ↦ ground (arith, e)
  | inl e ↦ elim (Bool-cases (contains_any value option_blanks)) [
    | inl b ↦ ground (arith, b)
    | inr b ↦
        let n = one_of_plain name allowed_options refl e in
        let both = plain-append name (b' ' ∷ value) in
        ground (arith, b, n, both, blanks_plain value b)
  ]
]

read_option_plain : (opt : Text) → all line_plain (read_option opt) ≡ true
unfolding read_option
read_option_plain opt = elim (Option-cases (cut b'=' (trim_space opt))) [
  | inl e ↦ ground (arith, e)
  | inr (o, e) ↦ ground (arith, e, keep_option_plain o)
]

-- A row of a machine has its id and its slug, whichever tunnel and hub it is of.
abbrev of_machine : Machine → HostRow → Bool
of_machine m r = same m.id r.id && same m.slug r.slug

host_rows_of_machine : (db : Db) (m : Machine) → all (of_machine m) (host_rows_of db m) ≡ true
unfolding host_rows_of
host_rows_of_machine db m =
    let mine : (same m.id m.id && same m.slug m.slug) ≡ true =
      ground (arith, same_refl m.id, same_refl m.slug) in
    all-gather _ (of_machine m)
      (λ t.
        all-map _ (of_machine m) (select (λ h. same h.id t.hub_id) db.hubs)
        ∙ all_weaken (λ h. true) (λ h. same m.id m.id && same m.slug m.slug) (λ h e. mine) _
            (all-true (select (λ h. same h.id t.hub_id) db.hubs)))
      (select (carries m.id) db.tunnels)

abbrev listed : Machine → Machine → Bool
listed x m = is_listed m && (same m.id x.id && same m.slug x.slug)

-- The machine of a row is in the table, and is to be listed.
abbrev pub listed_row : Db → HostRow → Bool
listed_row db r = any (λ m. is_listed m && of_machine m r) db.machines

moved :
    (x : Machine) (r : HostRow) (ms : List Machine)
    → of_machine x r ≡ true
    → any (listed x) ms ≡ true
    → any (λ m. is_listed m && of_machine m r) ms ≡ true
moved x r ms a h =
    any_weaken (listed x) (λ m. is_listed m && of_machine m r)
      (λ m b. ground (
        arith,
        a,
        b,
        same_iff x.id r.id,
        same_iff x.slug r.slug,
        same_iff m.id x.id,
        same_iff m.slug x.slug,
        same_iff m.id r.id,
        same_iff m.slug r.slug,
      ))
      ms h

host_rows_listed : (db : Db) → all (listed_row db) (host_rows db) ≡ true
unfolding host_rows
host_rows_listed db =
    all-sort_by (λ a b. le_text a.slug b.slug) (listed_row db)
      (gather (host_rows_of db) (select is_listed db.machines))
    ∙ all-gather_fit (λ x. any (listed x) db.machines) (host_rows_of db) (listed_row db)
        (λ x h.
          all_weaken (of_machine x) (listed_row db) (λ r a. moved x r db.machines a h)
            (host_rows_of db x) (host_rows_of_machine db x))
        (select is_listed db.machines)
        (all-select_found is_listed listed
          (λ x h. ground (arith, h, same_refl x.id, same_refl x.slug)) db.machines)

row_plain :
    (r : HostRow) (ms : List Machine)
    → all (λ m. plain m.id) ms ≡ true
    → any (λ m. is_listed m && of_machine m r) ms ≡ true
    → plain r.id ≡ true
row_plain r [] p h = cc
row_plain r (m ∷ ms) p h = elim (Bool-cases (same m.id r.id)) [
  | inl s ↦ rw (← (same_iff m.id r.id).0 s) (ground (arith, p))
  | inr s ↦ row_plain r ms (ground (arith, p)) (ground (arith, h, s))
]

host_rows_plain :
    (db : Db)
    → all (λ m. plain m.id) db.machines ≡ true
    → all (λ r. plain r.id) (host_rows db) ≡ true
host_rows_plain db p =
    all_weaken (listed_row db) (λ r. plain r.id) (λ r h. row_plain r db.machines p h) (host_rows db)
      (host_rows_listed db)

module _ (options_of : Text → Option (List Text)) (default_alias : Text) where
  options_plain : (raw : Text) → all line_plain (ssh_config_client_options options_of raw) ≡ true
  unfolding ssh_config_client_options
  options_plain raw = elim (Bool-cases (same (trim_space raw) [])) [
    | inl b ↦ ground (arith, b)
    | inr b ↦ elim (Option-cases (options_of raw)) [
      | inl e ↦ ground (arith, b, e)
      | inr (opts, e) ↦
          ground (arith, b, e, all-gather read_option line_plain read_option_plain opts)
    ]
  ]

  -- The lines of a row that has passed the checks.
  host_lines_plain :
      (r : HostRow)
      → plain r.id ≡ true
      → check_row options_of default_alias r ≡ ok tt
      → all plain (host_lines options_of default_alias r) ≡ true
  host_lines_plain r p h =
      let user = or_default r.target_user (codes "root") in
      let jump = or_default r.proxyjump_alias default_alias in
      let slug : valid_slug r.slug ≡ true = ground (arith, h) in
      let good_user : valid_ssh_config_token user ≡ true = ground (arith, h) in
      let good_jump : valid_ssh_config_token jump ≡ true = ground (arith, h) in
      let os = ssh_config_client_options options_of r.raw_json in
      ground (
        arith,
        p,
        valid_slug_plain r.slug slug,
        valid_token_plain user good_user,
        valid_token_plain jump good_jump,
        decimal_plain r.remote_port,
        all-append plain (map option_line os) ([] ∷ []),
        all-map option_line plain os,
        options_plain r.raw_json,
      )

  abbrev pub is_host_line : Text → Bool
  is_host_line l = has_prefix l (codes "Host ")

  no_host_options :
      (os : List (Text × Text)) → select is_host_line (map option_line os ++ [] ∷ []) ≡ []
  unfolding has_prefix
  no_host_options [] = refl
  no_host_options ((name, value) ∷ os) = no_host_options os

  host_line_of :
      (r : HostRow) (rest : List Text)
      → select is_host_line (host_lines options_of default_alias r ++ rest)
        ≡ (codes "Host " ++ r.slug) ∷ select is_host_line rest
  unfolding has_prefix
  host_line_of r rest =
      let os = ssh_config_client_options options_of r.raw_json in
      ap (λ ls. (codes "Host " ++ r.slug) ∷ ls)
        (select-append is_host_line (map option_line os ++ [] ∷ []) rest
          ∙ ap (λ ls. ls ++ select is_host_line rest) (no_host_options os))

  abbrev id_plain : HostRow → Bool
  id_plain r = plain r.id

  hosts_written :
      (rs : List HostRow) (ls : List Text)
      → all id_plain rs ≡ true
      → write_hosts options_of default_alias rs ≡ ok ls
      → (all plain ls ≡ true) × (select is_host_line ls ≡ map (λ r. codes "Host " ++ r.slug) rs)
  unfolding write_hosts
  hosts_written [] ls p h = let e : ls ≡ [] = ground (arith, h) in rw e (refl, refl)
  hosts_written (r ∷ rs) ls p h =
      let (_, c, k) = bind-eq-ok (check_row options_of default_alias r) _ h in
      let (more, l, e) = bind-eq-ok (write_hosts options_of default_alias rs) _ k in
      let (rest_plain, rest_hosts) = hosts_written rs more (ground (arith, p)) l in
      let mine = host_lines options_of default_alias r in
      let joined : ls ≡ mine ++ more = ground (arith, e) in
      let all_plain : all plain (mine ++ more) ≡ true =
        ground (
          arith,
          host_lines_plain r (ground (arith, p)) c,
          rest_plain,
          all-append plain mine more,
        ) in
      rw joined
        (all_plain, host_line_of r more ∙ ap (λ hs. (codes "Host " ++ r.slug) ∷ hs) rest_hosts)

  -- Where the configuration is generated, and the ids of the machines have no line break, which is so
  -- for the ids that the hub draws, the lines of the text that begin with `Host ` are those of the
  -- rows of the query, one for each, in their order: no slug, user, alias or option of an agent adds
  -- another. And each row is one of a machine that is desired to be active and is seen to be online or
  -- degraded.
  pub generate_ssh_config_hosts :
      (db : Db) (text : Text)
      → all (λ m. plain m.id) db.machines ≡ true
      → generate_ssh_config options_of default_alias db ≡ ok text
      → (select is_host_line (split b'\n' text) ≡ map (λ r. codes "Host " ++ r.slug) (host_rows db))
        × (all (listed_row db) (host_rows db) ≡ true)
  unfolding generate_ssh_config has_prefix
  generate_ssh_config_hosts db text p h =
      let (ls, w, e) = bind-eq-ok (write_hosts options_of default_alias (host_rows db)) _ h in
      let (rows_plain, hosts) = hosts_written (host_rows db) ls (host_rows_plain db p) w in
      let written : text ≡ unlines (head_lines options_of default_alias ++ ls) =
        ground (arith, e) in
      let heads : all plain (head_lines options_of default_alias ++ ls) ≡ true =
        ground (arith, rows_plain) in
      let last = select-append is_host_line ls ([] ∷ []) ∙ append-nil _ ∙ hosts in
      (
        ap (λ t. select is_host_line (split b'\n' t)) written
            ∙ ap (select is_host_line)
                (split-unlines (head_lines options_of default_alias ++ ls) heads)
            ∙ last,
        host_rows_listed db,
      )
