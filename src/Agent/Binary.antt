-- ===== src/Agent/Binary.antt =====
-- cmd/reach-agent/update_binary.go and main.go: what the updater decides about names, sums and sizes,
-- and the agent about its waits.
pub mod Flags
use reach.Agent.HostKeys.{fields}
use reach.Base.Int.{ℤ, pos, negsuc}
use reach.Base.Result.{Result, ok, err}
use reach.Base.Utf8.{lower_trimmed}
use reach.Base.{
  ℕ, ◌+◌, ◌*◌, ◌^◌, Bool, true, false, not, ◌&&◌, ◌||◌, List, [], ◌∷◌, ◌++◌, Option, none, some,
  ltb, ◌==◌, if◌then◌else◌, within, all, any, length, map, Text, codes, same, has_prefix,
  trim_prefix,
}

-- Flags of the worker that stand alone.
abbrev pub is_worker_flag : Text → Bool
is_worker_flag a =
    same a (codes "--foreground")
    || same a (codes "--confirm")
    || same a (codes "--rollback-watcher")

abbrev pub is_env_flag : Text → Bool
is_env_flag a = same a (codes "--install-env")

abbrev pub is_env_value : Text → Bool
is_env_value a = has_prefix a (codes "--install-env=")

-- The loop; the flag says that the argument before was `--install-env`, whose value goes with it.
unfoldable pub strip_args : Bool → List Text → List Text
unfolding same has_prefix
strip_args skip [] = []
strip_args true (a ∷ args) = strip_args false args
strip_args false (a ∷ args) =
    let rest = strip_args false args in
    let skipped = strip_args true args in
    if is_worker_flag a
    then rest
    else if is_env_flag a
    then skipped
    else if is_env_value a
    then rest
    else a ∷ rest

-- `stripUpdateWorkerOnlyArgs`
unfoldable pub strip_update_worker_only_args : List Text → List Text
unfolding strip_args
strip_update_worker_only_args args = strip_args false args

abbrev is_one_of : Text → List Text → Bool
is_one_of s words = any (same s) words

abbrev linux_asset : Text → Option Text
linux_asset arch =
    if is_one_of arch (codes "x86_64" ∷ codes "amd64" ∷ [])
    then some (codes "reach-agent_linux_amd64")
    else if is_one_of arch (codes "aarch64" ∷ codes "arm64" ∷ [])
    then some (codes "reach-agent_linux_arm64")
    else if is_one_of arch (codes "armv7l" ∷ codes "armv7" ∷ codes "armv7hl" ∷ [])
    then some (codes "reach-agent_linux_armv7")
    else if is_one_of arch (codes "armv6l" ∷ codes "armv6" ∷ [])
    then some (codes "reach-agent_linux_armv6")
    else if is_one_of arch (codes "i386" ∷ codes "i686" ∷ codes "386" ∷ [])
    then some (codes "reach-agent_linux_386")
    else none

abbrev darwin_asset : Text → Option Text
darwin_asset arch =
    if is_one_of arch (codes "x86_64" ∷ codes "amd64" ∷ [])
    then some (codes "reach-agent_darwin_amd64")
    else if is_one_of arch (codes "aarch64" ∷ codes "arm64" ∷ [])
    then some (codes "reach-agent_darwin_arm64")
    else none

-- `agentAssetForOSArch`
unfoldable pub agent_asset_for_os_arch : Text → Text → Option Text
unfolding same lower_trimmed
agent_asset_for_os_arch goos arch =
    if same goos (codes "linux")
    then linux_asset (lower_trimmed arch)
    else if same goos (codes "darwin")
    then darwin_asset (lower_trimmed arch)
    else none

-- The texts that `hex.DecodeString` takes, where their length is even.
abbrev pub is_hex : ℕ → Bool
is_hex c = within b'0' b'9' c || within b'a' b'f' c || within b'A' b'F' c

pub data AssetError : Type 0 where
  bad_length bad_hex bad_size no_checksum : AssetError

pub record ReleaseAsset : Type 0 where
  pub sha256 : Text
  pub size : ℤ

abbrev check_size : ℤ → Result AssetError (Unit {0})
check_size (negsuc n) = err bad_size
check_size (pos n) = if ltb 0 n then ok tt else err bad_size

-- `validateReleaseAsset`
unfoldable pub validate_release_asset : ReleaseAsset → Result AssetError (Unit {0})
validate_release_asset a =
    if not (length a.sha256 == 64)
    then err bad_length
    else if not (all is_hex a.sha256)
    then err bad_hex
    else check_size a.size

abbrev pub max_download : ℕ
max_download = 128 * 2 ^ 20

-- `maxDownloadBytes`
unfoldable pub max_download_bytes : ℤ → ℕ
max_download_bytes (negsuc n) = max_download
max_download_bytes (pos n) = if n == 0 || ltb max_download n then max_download else n

-- `strings.ToLower` on ASCII.
abbrev pub lower_byte : ℕ → ℕ
lower_byte c = if within b'A' b'Z' c then c + 32 else c

abbrev pub checked_sum : Text → Result AssetError Text
checked_sum sum =
    if not (length sum == 64)
    then err bad_length
    else if not (all is_hex sum)
    then err bad_hex
    else ok (map lower_byte sum)

abbrev pub sum_of : (Text → Text) → Text → List Text → Option Text
sum_of base asset (sum ∷ name ∷ rest) =
    if same (base (trim_prefix name (codes "*"))) asset then some sum else none
sum_of base asset _ = none

-- `checksumForAsset`, of the lines of a file; `base` is `filepath.Base`.
unfoldable pub checksum_for_asset : (Text → Text) → Text → List Text → Result AssetError Text
unfolding fields trim_prefix same
checksum_for_asset base asset [] = err no_checksum
checksum_for_asset base asset (line ∷ lines) =
    let rest = checksum_for_asset base asset lines in
    elim (sum_of base asset (fields line)) [ none ↦ rest | some sum ↦ checked_sum sum ]

-- `nextBackoff`, in nanoseconds.
unfoldable pub next_backoff : ℤ → ℕ → ℕ
next_backoff (negsuc n) max = if ltb max (10 ^ 10) then max else 10 ^ 10
next_backoff (pos n) max =
    let twice = (if n == 0 then 5 * 10 ^ 9 else n) * 2 in if ltb max twice then max else twice

-- `normalizeWSURL`
unfoldable pub normalize_ws_url : Text → Text
unfolding has_prefix trim_prefix
normalize_ws_url u =
    if has_prefix u (codes "https://")
    then codes "wss://" ++ trim_prefix u (codes "https://")
    else if has_prefix u (codes "http://")
    then codes "ws://" ++ trim_prefix u (codes "http://")
    else u
