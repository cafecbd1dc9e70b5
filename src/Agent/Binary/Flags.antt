-- ===== src/Agent/Binary/Flags.antt =====
-- cmd/reach-agent/update_binary.go: what is handed on to the worker, and what counts as a checksum.
use reach.Agent.Binary.{
  is_worker_flag, is_env_flag, is_env_value, is_hex, lower_byte, strip_args,
  strip_update_worker_only_args, checked_sum, sum_of, checksum_for_asset,
}
use reach.Agent.HostKeys.{fields}
use reach.Base.Result.{ok}
use reach.Base.{
  ℕ, ◌≡◌, refl, ap, inl, inr, Bool, true, false, not, ◌&&◌, ◌||◌, List, [], ◌∷◌, arith, ◌==◌,
  within, if◌then◌else◌, all, drop, length, map, Text, codes, same, same_iff, has_prefix, ◌≢◌, ◌++◌,
  Bool-cases, Option-cases, length-map,
}

-- An argument that is not for the worker alone.
abbrev pub is_handed_on : Text → Bool
is_handed_on a = not (is_worker_flag a || is_env_flag a || is_env_value a)

-- A round of the loop, on the outcomes of its tests.
abbrev round : Bool → Bool → Bool → Text → List Text → List Text → List Text
round w e v a rest skipped = if w then rest else if e then skipped else if v then rest else a ∷ rest

round_handed_on :
    (p : Text → Bool) (w e v : Bool) (a : Text) (rest skipped : List Text)
    → (not (w || e || v) ≡ true → p a ≡ true)
    → all p rest ≡ true
    → all p skipped ≡ true
    → all p (round w e v a rest skipped) ≡ true
round_handed_on p w e v a rest skipped h r s = ground (arith, h, r, s)

round_kept :
    (w e v : Bool) (a : Text) (rest skipped args : List Text)
    → not (w || e || v) ≡ true
    → rest ≡ args
    → round w e v a rest skipped ≡ a ∷ args
round_kept w e v a rest skipped args h r = ground (arith, h, r)

both : (x y : Bool) → (x && y) ≡ true → (x ≡ true) × (y ≡ true)
both true true h = (refl, refl)
both true false h = (refl, h)
both false y h = (h, absurd (ground (arith, h)))

strip_args_handed_on :
    (skip : Bool) (args : List Text) → all is_handed_on (strip_args skip args) ≡ true
unfolding strip_args
strip_args_handed_on skip [] = refl
strip_args_handed_on true (a ∷ args) = strip_args_handed_on false args
strip_args_handed_on false (a ∷ args) =
    round_handed_on is_handed_on (is_worker_flag a) (is_env_flag a) (is_env_value a) a
      (strip_args false args) (strip_args true args) (λ h. h) (strip_args_handed_on false args)
      (strip_args_handed_on true args)

-- Arguments without such flags are kept as they are.
strip_args_kept : (args : List Text) → all is_handed_on args ≡ true → strip_args false args ≡ args
unfolding strip_args
strip_args_kept [] h = refl
strip_args_kept (a ∷ args) h =
    let (here, rest) = both (is_handed_on a) (all is_handed_on args) h in
    round_kept (is_worker_flag a) (is_env_flag a) (is_env_value a) a (strip_args false args)
      (strip_args true args) args here (strip_args_kept args rest)

-- What the arguments become, one after another: three flags go, `--install-env` goes with the argument
-- behind it, where there is one, and so does one that begins with `--install-env=`; others stay.
pub data Stripped : List Text → List Text → Type 0 where
  done : Stripped [] []
  foreground :
      (args out : List Text) → Stripped args out → Stripped (codes "--foreground" ∷ args) out
  confirm : (args out : List Text) → Stripped args out → Stripped (codes "--confirm" ∷ args) out
  watcher :
      (args out : List Text) → Stripped args out → Stripped (codes "--rollback-watcher" ∷ args) out
  env :
      (value : Text) (args out : List Text)
      → Stripped args out
      → Stripped (codes "--install-env" ∷ value ∷ args) out
  env_last : Stripped (codes "--install-env" ∷ []) []
  env_value :
      (value : Text) (args out : List Text)
      → Stripped args out
      → Stripped ((codes "--install-env=" ++ value) ∷ args) out
  other :
      (a : Text) (args out : List Text)
      → a ≢ codes "--foreground"
      → a ≢ codes "--confirm"
      → a ≢ codes "--rollback-watcher"
      → a ≢ codes "--install-env"
      → has_prefix a (codes "--install-env=") ≡ false
      → Stripped args out
      → Stripped (a ∷ args) (a ∷ out)

unlike : (a b : Text) → same a b ≡ false → a ≢ b
unlike a b h = λ e. ground (arith, h, same_iff a b, e)

prefix_split : (p s : Text) → has_prefix s p ≡ true → s ≡ p ++ drop (length p) s
unfolding has_prefix
prefix_split [] s h = refl
prefix_split (c ∷ p) [] h = cc
prefix_split (c ∷ p) (d ∷ s) h =
    let here : d ≡ c = ground (arith, h) in
    rw here (ap (◌∷◌ c) (prefix_split p s (ground (arith, h))))

-- A round of the loop, where `skipped` is right for the arguments behind `--install-env`.
round-Stripped :
    (a : Text) (args rest skipped : List Text)
    → Stripped args rest
    → Stripped (codes "--install-env" ∷ args) skipped
    → Stripped (a ∷ args) (round (is_worker_flag a) (is_env_flag a) (is_env_value a) a rest skipped)
round-Stripped a args rest skipped s t = elim (Bool-cases (same a (codes "--foreground"))) [
  | inl e ↦ rw e (rw ((same_iff a _).0 e) (foreground args rest s))
  | inr f ↦ elim (Bool-cases (same a (codes "--confirm"))) [
    | inl e ↦ rw (f, e) (rw ((same_iff a _).0 e) (confirm args rest s))
    | inr c ↦ elim (Bool-cases (same a (codes "--rollback-watcher"))) [
      | inl e ↦ rw (f, c, e) (rw ((same_iff a _).0 e) (watcher args rest s))
      | inr w ↦ elim (Bool-cases (same a (codes "--install-env"))) [
        | inl e ↦ rw (f, c, w, e) (rw ((same_iff a _).0 e) t)
        | inr i ↦ elim (Bool-cases (is_env_value a)) [
          | inl e ↦
              rw (f, c, w, i, e)
                (rw (prefix_split (codes "--install-env=") a e) (env_value _ args rest s))
          | inr v ↦
              rw (f, c, w, i, v)
                (other a args rest (unlike a _ f) (unlike a _ c) (unlike a _ w) (unlike a _ i) v s)
        ]
      ]
    ]
  ]
]

strip_args-Stripped : (args : List Text) → Stripped args (strip_args false args)
unfolding strip_args
strip_args-Stripped [] = done
strip_args-Stripped (a ∷ []) = round-Stripped a [] [] [] done env_last
strip_args-Stripped (a ∷ value ∷ args) =
    round-Stripped a (value ∷ args) (strip_args false (value ∷ args)) (strip_args false args)
      (strip_args-Stripped (value ∷ args))
      (env value args (strip_args false args) (strip_args-Stripped args))

-- `stripUpdateWorkerOnlyArgs` takes exactly `--foreground`, `--confirm`, `--rollback-watcher`,
-- `--install-env` with the argument behind it, and what begins with `--install-env=` from its
-- arguments, and keeps the others in their order; to strip arguments again changes nothing.
pub strip_update_worker_only_args-Stripped :
    (args : List Text)
    → Stripped args (strip_update_worker_only_args args)
      × (strip_update_worker_only_args (strip_update_worker_only_args args)
          ≡ strip_update_worker_only_args args)
unfolding strip_update_worker_only_args
strip_update_worker_only_args-Stripped args = (
  strip_args-Stripped args,
  strip_args_kept (strip_args false args) (strip_args_handed_on false args),
)

abbrev pub is_lower_hex : ℕ → Bool
is_lower_hex c = within b'0' b'9' c || within b'a' b'f' c

lower_hex : (s : Text) → all is_hex s ≡ true → all is_lower_hex (map lower_byte s) ≡ true
lower_hex [] h = refl
lower_hex (c ∷ s) h = ground (arith, lower_hex s)

checked_sum-ok :
    (sum out : Text) → checked_sum sum ≡ ok out → (length out ≡ 64) × (all is_lower_hex out ≡ true)
checked_sum-ok sum out h = elim (Bool-cases (length sum == 64)) [
  | inr l ↦ absurd (ground (arith, h, l))
  | inl l ↦ elim (Bool-cases (all is_hex sum)) [
    | inr x ↦ absurd (ground (arith, h, l, x))
    | inl x ↦
        let same_sum : out ≡ map lower_byte sum = ground (arith, h, l, x) in
        rw same_sum (ground (arith, l, length-map lower_byte sum), lower_hex sum x)
  ]
]

-- A checksum that is found for an asset is 64 lower-case hexadecimal digits.
pub checksum_for_asset-ok :
    (base : Text → Text) (asset : Text) (lines : List Text) (out : Text)
    → checksum_for_asset base asset lines ≡ ok out
    → (length out ≡ 64) × (all is_lower_hex out ≡ true)
unfolding checksum_for_asset
checksum_for_asset-ok base asset [] out h = cc
checksum_for_asset-ok base asset (line ∷ lines) out h =
    elim (Option-cases (sum_of base asset (fields line))) [
      | inl e ↦ checksum_for_asset-ok base asset lines out (ground (arith, h, e))
      | inr (sum, e) ↦ checked_sum-ok sum out (ground (arith, h, e))
    ]
