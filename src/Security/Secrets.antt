-- ===== src/Security/Secrets.antt =====
-- security.go: `HashSecret`, `VerifySecret` and `RandomToken`. Argon2 is another project's, and what
-- the code takes of `encoding/base64`, `fmt.Sscanf` and the random source is given with it.
use mathlib.Core.Option.{some-injective}
use reach.Base.{
  ℕ, ◌*◌, ◌≡◌, ap, ◌∙◌, Bool, true, false, not, ◌||◌, List, [], ◌∷◌, ◌++◌, Option, none, some, ◌==◌,
  if◌then◌else◌, any, length, get_or, Text, codes, same, same_refl, split,
}
use reach.Base.Split.{split_onto-append, split_onto_end}
use reach.Base.Strings.{split_onto}

abbrev pub dollar : ℕ
dollar = b'$'

-- The parts of the line `m=…,t=…,p=…`.
pub record Params : Type 0 where
  pub memory : ℕ
  pub iterations : ℕ
  pub parallelism : ℕ

abbrev pub default_argon : Params
default_argon = record { memory = 64 * 1024; iterations = 3; parallelism = 2 }

abbrev default_line : Text
default_line = codes "m=65536,t=3,p=2"

-- What the libraries give, with what their documentation says of it.
pub record Crypto : Type 0 where
  -- `argon2.IDKey(secret, salt, iterations, memory, parallelism, length)`
  pub id_key : Text → Text → Params → ℕ → Text
  pub length-id_key : (s salt : Text) (p : Params) (n : ℕ) → length (id_key s salt p n) ≡ n
  -- `base64.RawStdEncoding`, whose alphabet has no `$`
  pub encode : Text → Text
  pub decode : Text → Option Text
  pub decode-encode : (s : Text) → decode (encode s) ≡ some s
  pub encode_plain : (s : Text) → any (λ c. c == dollar) (encode s) ≡ false
  -- `fmt.Sscanf(line, "m=%d,t=%d,p=%d", …)`
  pub scan : Text → Option Params
  pub scan_default : scan (codes "m=65536,t=3,p=2") ≡ some default_argon

module _ (c : Crypto) where
  open c use {id_key, encode, decode, scan}

  -- The salt is what `rand.Read` has given; `none` for an empty secret.
  unfoldable pub hash_secret : Text → Text → Option Text
  hash_secret salt [] = none
  hash_secret salt (b ∷ s) = some (
      codes "$argon2id$v=19$"
      ++ (default_line
          ++ (dollar ∷ encode salt ++ dollar ∷ encode (id_key (b ∷ s) salt default_argon 32))))

  -- The last steps of `VerifySecret`, on what has been read from the text.
  abbrev compare_keys : Text → Option Params → Option Text → Option Text → Bool
  compare_keys secret (some p) (some salt) (some expected) =
      same (id_key secret salt p (length expected)) expected
  compare_keys secret _ _ _ = false

  -- The steps behind the test of emptiness, on the text's parts.
  abbrev judge_parts : Text → List Text → Bool
  judge_parts secret parts =
      if not (length parts == 6) || not (same (get_or parts 1 []) (codes "argon2id"))
      then false
      else compare_keys secret (scan (get_or parts 3 [])) (decode (get_or parts 4 []))
          (decode (get_or parts 5 []))

  unfoldable pub verify_secret : Text → Text → Bool
  unfolding same split
  verify_secret secret encoded =
      if same secret [] || same encoded [] then false else judge_parts secret (split dollar encoded)

parts_of :
    (x y : Text)
    → any (λ c. c == dollar) x ≡ false
    → any (λ c. c == dollar) y ≡ false
    → split dollar (codes "$argon2id$v=19$" ++ (default_line ++ (dollar ∷ x ++ dollar ∷ y)))
      ≡ [] ∷ codes "argon2id" ∷ codes "v=19" ∷ default_line ∷ x ∷ y ∷ []
unfolding split split_onto
parts_of x y p q =
    ap (λ t. [] ∷ codes "argon2id" ∷ codes "v=19" ∷ default_line ∷ t)
      (split_onto-append dollar [] x y p ∙ ap (λ t. x ∷ t) (split_onto_end dollar [] y q))

judge_parts-line :
    (c : Crypto) (salt secret : Text)
    → judge_parts c secret (
        split dollar (
          codes "$argon2id$v=19$"
          ++ (default_line
              ++ (dollar ∷ c.encode salt
                  ++ dollar ∷ c.encode (c.id_key secret salt default_argon 32)))))
      ≡ true
unfolding same
judge_parts-line c salt secret =
    let key = c.id_key secret salt default_argon 32 in
    ap (judge_parts c secret)
      (parts_of (c.encode salt) (c.encode key) (c.encode_plain salt) (c.encode_plain key))
    ∙ rw (c.scan_default, c.decode-encode, c.decode-encode, c.length-id_key) (same_refl key)

-- A secret that is not empty is accepted against every hash that `HashSecret` makes of it, whatever
-- the salt.
pub verify_secret-hash_secret :
    (c : Crypto) (salt secret : Text) {hash : Text}
    → hash_secret c salt secret ≡ some hash
    → verify_secret c secret hash ≡ true
unfolding hash_secret verify_secret split same
verify_secret-hash_secret c salt [] h = cc
verify_secret-hash_secret c salt (b ∷ s) h =
    rw (← some-injective _ _ h) (judge_parts-line c salt (b ∷ s))
