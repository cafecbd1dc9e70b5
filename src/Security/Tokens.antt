-- ===== src/Security/Tokens.antt =====
-- security.go: `ValidateUnixUser`, `ValidateTargetUser` and `ValidateSSHConfigToken`.
use reach.Base.{
  ℕ, Bool, not, ◌&&◌, ◌||◌, [], ◌∷◌, ltb, ◌==◌, within, length, drop, all, any, Text, codes,
  has_prefix, contains_any,
}
use reach.Security.Slug.{is_alnum}

-- `^rt-[a-z0-9]{8}$`
unfoldable pub valid_unix_user : Text → Bool
unfolding has_prefix is_alnum
valid_unix_user s = has_prefix s (codes "rt-") && length s == 11 && all is_alnum (drop 3 s)

abbrev blanks : Text
blanks = b'\r' ∷ b'\n' ∷ b'\t' ∷ b' ' ∷ []

unfoldable pub valid_target_user : Text → Bool
unfolding has_prefix contains_any
valid_target_user s =
    length s == 0
    || not (
        ltb 128 (length s)
        || has_prefix s (codes "-")
        || contains_any s (b':' ∷ [])
        || contains_any s (0 ∷ blanks))

abbrev pub is_token_byte : ℕ → Bool
is_token_byte c =
    within b'A' b'Z' c
    || within b'a' b'z' c
    || within b'0' b'9' c
    || any (λ d. c == d) (codes "_.@%+=:,/\\-")

-- `^[A-Za-z0-9_.@%+=:,/\\-]+$`, and the tests beside it.
unfoldable pub valid_ssh_config_token : Text → Bool
unfolding has_prefix contains_any
valid_ssh_config_token s = not (
    length s == 0
    || not (ltb 0 (length s) && all is_token_byte s)
    || has_prefix s (codes "-")
    || contains_any s blanks)
