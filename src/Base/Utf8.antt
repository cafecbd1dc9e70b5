-- ===== src/Base/Utf8.antt =====
-- Go's view of a string as runes: `range` over a string, `unicode/utf8`, and `strings.TrimSpace` and
-- `strings.ToLower`, which work rune by rune.
use reach.Base.Lists.{length, get_or, all}
use reach.Base.Strings.{Text}
use reach.Base.Tests.{ltb, ◌==◌, if◌then◌else◌, within}
use Prim.Native.Nat.{ℕ, zero, suc, ◌+◌, ◌-◌, ◌*◌, ◌%◌}
use mathlib.Core.Bool.{Bool, not, ◌&&◌, ◌||◌}
use mathlib.Core.List.{List, [], ◌∷◌, ◌++◌, map, reverse}

-- A rune with the bytes that it was read from; a byte that starts no valid sequence is U+FFFD.
pub record Rune : Type 0 where
  pub value : ℕ
  pub bytes : Text

abbrev rune_error : ℕ
rune_error = 0xfffd

abbrev is_cont : ℕ → Bool
is_cont c = within 0x80 0xbf c

-- The second byte's range in a sequence of three, and of four.
abbrev second_of_three : ℕ → ℕ → Bool
second_of_three b c =
    if b == 0xe0 then within 0xa0 0xbf c else if b == 0xed then within 0x80 0x9f c else is_cont c

abbrev second_of_four : ℕ → ℕ → Bool
second_of_four b c =
    if b == 0xf0 then within 0x90 0xbf c else if b == 0xf4 then within 0x80 0x8f c else is_cont c

-- `utf8.DecodeRune` at byte b with s behind it; a missing byte is read as 0, which continues nothing.
unfoldable pub first_rune : ℕ → Text → Rune
first_rune b s =
    let c1 = get_or s 0 0 in
    let c2 = get_or s 1 0 in
    let c3 = get_or s 2 0 in
    if ltb b 0x80
    then record { value = b; bytes = b ∷ [] }
    else if within 0xc2 0xdf b && is_cont c1
    then record { value = b % 32 * 64 + c1 % 64; bytes = b ∷ c1 ∷ [] }
    else if within 0xe0 0xef b && second_of_three b c1 && is_cont c2
    then record { value = (b % 16 * 64 + c1 % 64) * 64 + c2 % 64; bytes = b ∷ c1 ∷ c2 ∷ [] }
    else if within 0xf0 0xf4 b && second_of_four b c1 && is_cont c2 && is_cont c3
    then record {
      value = ((b % 8 * 64 + c1 % 64) * 64 + c2 % 64) * 64 + c3 % 64;
      bytes = b ∷ c1 ∷ c2 ∷ c3 ∷ [];
    }
    else record { value = rune_error; bytes = b ∷ [] }

-- The runes of a text, after the first k bytes of it have been read.
unfoldable pub runes_after : ℕ → Text → List Rune
unfolding first_rune
runes_after k [] = []
runes_after zero (b ∷ s) = first_rune b s ∷ runes_after (length (first_rune b s).bytes - 1) s
runes_after (suc k) (b ∷ s) = runes_after k s

unfoldable pub runes : Text → List Rune
unfolding runes_after
runes s = runes_after 0 s

abbrev pub rune_bytes : List Rune → Text
rune_bytes [] = []
rune_bytes (r ∷ rs) = r.bytes ++ rune_bytes rs

-- `unicode.IsSpace`.
unfoldable pub is_space : ℕ → Bool
is_space r =
    within 0x09 0x0d r
    || r == 0x20
    || r == 0x85
    || r == 0xa0
    || r == 0x1680
    || within 0x2000 0x200a r
    || r == 0x2028
    || r == 0x2029
    || r == 0x202f
    || r == 0x205f
    || r == 0x3000

unfoldable pub drop_spaces : List Rune → List Rune
unfolding is_space
drop_spaces [] = []
drop_spaces (r ∷ rs) = if is_space r.value then drop_spaces rs else r ∷ rs

unfoldable pub trim_runes : List Rune → List Rune
unfolding drop_spaces
trim_runes rs = reverse (drop_spaces (reverse (drop_spaces rs)))

-- `strings.TrimSpace`.
unfoldable pub trim_space : Text → Text
unfolding trim_runes runes
trim_space s = rune_bytes (trim_runes (runes s))

-- `unicode.ToLower`, as far as the code can tell results apart: it compares them with ASCII only.
-- Two runes outside ASCII are mapped into it; the others are mapped to runes outside ASCII, for which
-- the rune itself stands.
unfoldable pub lower_rune : ℕ → ℕ
lower_rune r =
    if within b'A' b'Z' r
    then r + 32
    else if r == 0x130
    then b'i'
    else if r == 0x212a
    then b'k'
    else r

-- The runes of `strings.ToLower(strings.TrimSpace(s))`.
unfoldable pub lower_trimmed : Text → List ℕ
unfolding trim_runes runes lower_rune
lower_trimmed s = map (λ r. lower_rune r.value) (trim_runes (runes s))

-- `utf8.ValidString`.
unfoldable pub valid_utf8 : Text → Bool
unfolding runes
valid_utf8 s = all (λ r. not (r.value == rune_error && length r.bytes == 1)) (runes s)
