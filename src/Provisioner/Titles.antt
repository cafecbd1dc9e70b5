-- ===== src/Provisioner/Titles.antt =====
-- provisioner.go: the titles of an agent's process: truncateProcessTitleUTF8Bytes,
-- normalizeDesiredProcessTitleConfig and `SetProcessTitleConfig`. What `time.ParseDuration` makes of
-- a text (in nanoseconds) and the JSON of a configuration are arguments.
pub mod Bounds
use reach.Base.Int.{ℤ, pos, negsuc}
use reach.Base.Result.{Result, ok, err}
use reach.Base.Utf8.{trim_space, runes, valid_utf8}
use reach.Base.{
  ℕ, zero, suc, ◌+◌, ◌-◌, ◌*◌, ◌^◌, Bool, true, false, not, ◌&&◌, ◌||◌, List, [], ◌∷◌, ◌++◌, Option,
  none, some, ltb, leb, ◌==◌, if◌then◌else◌, length, take, drop, map, Text, codes, same,
}
use reach.Model.Agent.{ProcessTitleConfig}
use reach.Model.{Machine, Time}
use reach.Provisioner.Desired.{update_machine}
use reach.Store.{Db, get_machine, audit}

abbrev pub max_title_bytes : ℕ
max_title_bytes = 4096

-- The last k bytes are one rune.
abbrev ends_in : ℕ → Text → Bool
ends_in k s =
    leb k (length s)
    && length (runes (drop (length s - k) s)) == 1
    && valid_utf8 (drop (length s - k) s)

-- The size that `utf8.DecodeLastRuneInString` gives: 1 where no valid rune ends the text, 0 for the
-- empty one.
unfoldable pub last_rune_size : Text → ℕ
unfolding runes valid_utf8
last_rune_size s =
    if length s == 0
    then 0
    else if ends_in 1 s
    then 1
    else if ends_in 2 s
    then 2
    else if ends_in 3 s
    then 3
    else if ends_in 4 s
    then 4
    else 1

-- A round of the loop on `max`.
abbrev pub shorter : Text → ℕ → ℕ
shorter s n =
    let size = last_rune_size (take n s) in if size == 0 || ltb n size then n - 1 else n - size

-- The loop; the fuel is `max`, which each round lowers.
unfoldable pub truncate_loop : ℕ → Text → ℕ → ℕ
unfolding last_rune_size valid_utf8
truncate_loop zero s n = n
truncate_loop (suc k) s n =
    let rest = truncate_loop k s (shorter s n) in
    if ltb 0 n && not (valid_utf8 (take n s)) then rest else n

-- `truncateProcessTitleUTF8Bytes`, and `truncateUTF8Bytes` of the agent; `max` is not negative.
unfoldable pub truncate_utf8 : Text → ℕ → Text
unfolding truncate_loop
truncate_utf8 s max =
    if max == 0 then [] else if leb (length s) max then s else take (truncate_loop max s max) s

-- `strings.ReplaceAll(s, "\x00", " ")`
abbrev pub no_nul : Text → Text
no_nul = map (λ c. if c == 0 then b' ' else c)

-- `if len(s) > max { s = … }`
unfoldable pub cut_title : ℕ → Text → Text
unfolding truncate_utf8
cut_title max s = if ltb max (length s) then truncate_utf8 s max else s

unfoldable pub clean_title : Text → Text
unfolding trim_space cut_title
clean_title title = cut_title max_title_bytes (trim_space (no_nul title))

-- The loop over the titles, which drops a blank one before it would be cut.
unfoldable pub clean_titles : List Text → List Text
unfolding clean_title trim_space same
clean_titles [] = []
clean_titles (title ∷ titles) =
    if same (trim_space (no_nul title)) []
    then clean_titles titles
    else clean_title title ∷ clean_titles titles

pub data TitleError : Type 0 where
  bad_interval short_interval too_many no_machine : TitleError

-- `d < time.Second`
abbrev under_a_second : ℤ → Bool
under_a_second (negsuc n) = true
under_a_second (pos n) = ltb n (10 ^ 9)

abbrev check_interval : (Text → Option ℤ) → Text → Option TitleError
check_interval parse [] = none
check_interval parse (c ∷ s) = elim (parse (c ∷ s)) [
  | none ↦ some bad_interval
  | some d ↦ if under_a_second d then some short_interval else none
]

abbrev pub counted :
    Option TitleError → ProcessTitleConfig → Result TitleError (Option ProcessTitleConfig)
counted (some e) c = err e
counted none c = if ltb 20 (length c.process_titles) then err too_many else ok (some c)

abbrev pub cleaned : ProcessTitleConfig → ProcessTitleConfig
cleaned cfg = record {
  process_title = if same cfg.process_title [] then [] else clean_title cfg.process_title;
  process_titles = clean_titles cfg.process_titles;
  rotate_interval = trim_space cfg.rotate_interval;
}

unfoldable pub normalize_titles :
    (Text → Option ℤ) → ProcessTitleConfig → Result TitleError (Option ProcessTitleConfig)
unfolding clean_titles clean_title trim_space same
normalize_titles parse cfg =
    let out = cleaned cfg in
    if length out.process_titles == 0 && same out.process_title []
    then ok none
    else counted (check_interval parse out.rotate_interval) out

abbrev title_row : Option Text → ℕ → Time → Text → Machine → Machine
title_row raw gen now actor m = record m {
  process_title_config = raw;
  desired_generation = gen;
  desired_changed_at = some now;
  desired_changed_by = some actor;
  updated_at = some now;
}

abbrev the_machine : Option Machine → Result TitleError Machine
the_machine none = err no_machine
the_machine (some m) = ok m

abbrev store_titles : Text → Time → Machine → Option Text → Db → Db × Result TitleError Machine
store_titles actor now m raw db =
    let db1 = update_machine m.id (title_row raw (m.desired_generation + 1) now actor) db in
    let db2 = audit (codes "machine.process_title.update") actor m.id [] now db1 in
    (db2, the_machine (get_machine db2 m.id))

abbrev encoded : (ProcessTitleConfig → Text) → Option ProcessTitleConfig → Option Text
encoded marshal none = none
encoded marshal (some c) = some (marshal c)

abbrev with_titles :
    (ProcessTitleConfig → Text)
    → Text
    → Time
    → Machine
    → Result TitleError (Option ProcessTitleConfig)
    → Db
    → Db × Result TitleError Machine
with_titles marshal actor now m (err e) db = (db, err e)
with_titles marshal actor now m (ok c) db = store_titles actor now m (encoded marshal c) db

abbrev normalized :
    (Text → Option ℤ) → Option ProcessTitleConfig → Result TitleError (Option ProcessTitleConfig)
normalized parse none = ok none
normalized parse (some cfg) = normalize_titles parse cfg

-- `SetProcessTitleConfig`; no configuration clears the column.
unfoldable pub set_process_title_config :
    (Text → Option ℤ)
    → (ProcessTitleConfig → Text)
    → Text
    → Option ProcessTitleConfig
    → Text
    → Time
    → Db
    → Db × Result TitleError Machine
unfolding normalize_titles same
set_process_title_config parse marshal key cfg actor now db = elim (get_machine db key) [
  | none ↦ (db, err no_machine)
  | some m ↦ with_titles marshal actor now m (normalized parse cfg) db
]
