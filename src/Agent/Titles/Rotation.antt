-- ===== src/Agent/Titles/Rotation.antt =====
-- cmd/reach-agent/process_title.go: the controller shows one of its titles.
use reach.Agent.Titles.{
  ProcessTitleSettings, ProcessTitleController, normalize_settings, same_title_settings,
  update_titles, advance, clean_process_titles, or_default,
}
use native.Mathlib.Nat.{mod-lt, zero-lt-suc}
use reach.Base.{
  ℕ, zero, suc, ◌+◌, ◌%◌, ◌≡◌, refl, inl, inr, true, List, [], ◌∷◌, arith, ltb, length, get_or,
  Text, Bool-cases,
}

-- The title that is shown is the one at the index, which is within the titles.
pub record IsShowing (c : ProcessTitleController) : Type 0 where
  pub within_titles : ltb c.index (length c.titles) ≡ true
  pub shows : c.shown ≡ get_or c.titles c.index []

-- What happens to a controller: the settings change, or the interval is over.
pub data Step : Type 0 where
  updates : ProcessTitleSettings → Step
  advances : Step

unfoldable pub take_step : Step → ProcessTitleController → ProcessTitleController
unfolding update_titles advance
take_step (updates s) c = update_titles s c
take_step advances c = advance c

unfoldable pub take_steps : List Step → ProcessTitleController → ProcessTitleController
unfolding take_step
take_steps [] c = c
take_steps (s ∷ ss) c = take_steps ss (take_step s c)

some_titles : (ts : List Text) → ltb 0 (length (or_default ts)) ≡ true
some_titles [] = refl
some_titles (t ∷ ts) = ground arith

update_titles-IsShowing :
    (s : ProcessTitleSettings) (c : ProcessTitleController)
    → IsShowing c
    → IsShowing (update_titles s c)
unfolding update_titles normalize_settings
update_titles-IsShowing s c h =
    elim (Bool-cases
      (same_title_settings c.titles c.interval (normalize_settings s.titles s.interval))) [
        | inl e ↦ rw (e, update_titles) h
        | inr e ↦
            rw (e, update_titles)
              (record { within_titles = some_titles (clean_process_titles s.titles); shows = refl })
      ]

below_length : (a n : ℕ) → ltb 0 n ≡ true → ltb (a % n) n ≡ true
below_length a zero h = absurd (ground arith)
below_length a (suc n) h = let below = mod-lt a (zero-lt-suc n) in ground (arith, below)

advance-IsShowing : (c : ProcessTitleController) → IsShowing c → IsShowing (advance c)
unfolding advance
advance-IsShowing c h = elim (Bool-cases (ltb (length c.titles) 2)) [
  | inl e ↦ rw (e, advance) h
  | inr e ↦
      rw (e, advance)
        (record {
          within_titles = below_length (c.index + 1) (length c.titles) (ground (arith, e));
          shows = refl;
        })
]

-- Whatever changes of the settings and rotations come one after another, the title that the agent's
-- process shows is the one of its list at the controller's index, which is always within the list.
-- This is where it is so at the start.
pub take_steps-IsShowing :
    (ss : List Step) (c : ProcessTitleController) → IsShowing c → IsShowing (take_steps ss c)
unfolding take_steps take_step
take_steps-IsShowing [] c h = h
take_steps-IsShowing (updates s ∷ ss) c h =
    take_steps-IsShowing ss (update_titles s c) (update_titles-IsShowing s c h)
take_steps-IsShowing (advances ∷ ss) c h =
    take_steps-IsShowing ss (advance c) (advance-IsShowing c h)
