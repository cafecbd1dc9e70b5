-- ===== src/Agent/Titles.antt =====
-- cmd/reach-agent/process_title.go: the titles that the agent's process shows in turn. Durations are
-- integers of nanoseconds; the title itself is set outside.
pub mod Rotation
use reach.Base.Int.{ℤ, pos, same_ℤ, is_positive}
use reach.Base.Utf8.{trim_space}
use reach.Base.{
  ℕ, ◌+◌, ◌*◌, ◌^◌, ◌%◌, Bool, true, false, not, ◌&&◌, ◌||◌, List, [], ◌∷◌, Option, none, some, ltb,
  ◌==◌, if◌then◌else◌, length, get_or, map, Text, codes, same,
}
use reach.Provisioner.Titles.{no_nul}
use reach.Model.Agent.{ProcessTitleConfig}

pub record ProcessTitleSettings : Type 0 where
  pub titles : List Text
  pub interval : ℤ

-- The controller, with the title that it has set last.
pub record ProcessTitleController : Type 0 where
  pub titles : List Text
  pub interval : ℤ
  pub index : ℕ
  pub shown : Text

abbrev pub default_title : Text
default_title = codes "Reach-Agent"

unfoldable pub clean_process_title : Text → Text
unfolding trim_space
clean_process_title title = trim_space (no_nul title)

unfoldable pub clean_process_titles : List Text → List Text
unfolding clean_process_title same
clean_process_titles [] = []
clean_process_titles (t ∷ ts) =
    if same (clean_process_title t) []
    then clean_process_titles ts
    else clean_process_title t ∷ clean_process_titles ts

abbrev pub or_default : List Text → List Text
or_default [] = default_title ∷ []
or_default (t ∷ ts) = t ∷ ts

abbrev pub five_seconds : ℤ
five_seconds = pos (5 * 10 ^ 9)

unfoldable pub normalize_settings : List Text → ℤ → ProcessTitleSettings
unfolding clean_process_titles is_positive
normalize_settings titles interval = record {
  titles = or_default (clean_process_titles titles);
  interval = if is_positive interval then interval else five_seconds;
}

-- The agent's configuration, as far as the titles go.
pub record TitleConfig : Type 0 where
  pub process_title : Text
  pub process_titles : List Text
  pub rotate : ℤ

abbrev titles_or_one : List Text → Text → List Text
titles_or_one [] title = if same title [] then [] else title ∷ []
titles_or_one (t ∷ ts) title = t ∷ ts

unfoldable pub settings_from_agent_config : TitleConfig → ProcessTitleSettings
unfolding normalize_settings same
settings_from_agent_config cfg =
    normalize_settings (titles_or_one cfg.process_titles cfg.process_title) cfg.rotate

abbrev or_interval : Option ℤ → ℤ → ℤ
or_interval none d = d
or_interval (some n) d = n

-- `parse` is `time.ParseDuration`.
unfoldable pub settings_from_desired :
    (Text → Option ℤ) → Option ProcessTitleConfig → TitleConfig → ProcessTitleSettings
unfolding settings_from_agent_config normalize_settings trim_space same
settings_from_desired parse none fallback = settings_from_agent_config fallback
settings_from_desired parse (some cfg) fallback =
    normalize_settings (titles_or_one cfg.process_titles cfg.process_title) (
      if same (trim_space cfg.rotate_interval) []
      then fallback.rotate
      else or_interval (parse (trim_space cfg.rotate_interval)) fallback.rotate)

abbrev same_titles : List Text → List Text → Bool
same_titles [] [] = true
same_titles (s ∷ ss) (t ∷ ts) = same s t && same_titles ss ts
same_titles _ _ = false

unfoldable pub same_title_settings : List Text → ℤ → ProcessTitleSettings → Bool
unfolding same same_ℤ
same_title_settings titles interval next =
    same_ℤ interval next.interval && same_titles titles next.titles

-- `Update`, on settings that it normalizes; the first title is there.
unfoldable pub update_titles :
    ProcessTitleSettings → ProcessTitleController → ProcessTitleController
unfolding normalize_settings same_title_settings
update_titles settings c =
    let next = normalize_settings settings.titles settings.interval in
    if same_title_settings c.titles c.interval next then c else record {
      titles = next.titles;
      interval = next.interval;
      index = 0;
      shown = get_or next.titles 0 [];
    }

-- `advance`
unfoldable pub advance : ProcessTitleController → ProcessTitleController
advance c =
    let index = (c.index + 1) % length c.titles in
    if ltb (length c.titles) 2
    then c
    else record c { index = index; shown = get_or c.titles index [] }
