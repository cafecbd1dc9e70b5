-- ===== src/Tests/Names.antt =====
-- The theorems on slugs, ports, secrets and metadata, and runs of `NormalizeSlug`.
use reach.Api.Json.{
  Value, obj, arr, str, nil, cons, field, end, validate_value, height, longest,
  validate_value-bounds,
}
use reach.Base.Utf8.{lower_trimmed}
use reach.Base.{ℕ, ◌≡◌, ◌≤◌, refl, true, false, [], ◌∷◌, Option, some, any, Text, codes}
use reach.Provisioner.Ports.{PortSpec, allocate_port, allocate_port_lem}
use reach.Provisioner.Slugs.{GivesShorts, SlugSpec, retired_base, retired_slug, retired_slug_lem}
use reach.Security.Secrets.{hash_secret, verify_secret, verify_secret-hash_secret}
use reach.Security.Slug.Normal.{valid_slug-normalize_slug}
use reach.Security.Slug.{is_alnum, valid_slug, normalize_slug}
use reach.Tests.Data.{toy, hub, machine, tunnel, secret_hash}

normalize_slug_test : normalize_slug (codes "  My Box_2! ") ≡ codes "my-box-2"
unfolding normalize_slug
normalize_slug_test = refl

normalize_slug_unnamed_test : normalize_slug (codes "!!!") ≡ codes "box-"
unfolding normalize_slug
normalize_slug_unnamed_test = refl

valid_slug-normalize_slug_example :
    (valid_slug (normalize_slug (codes "!!!")) ≡ any is_alnum (lower_trimmed (codes "!!!")))
    × (any is_alnum (lower_trimmed (codes "!!!")) ≡ false
        → normalize_slug (codes "!!!") ≡ codes "box-")
valid_slug-normalize_slug_example = valid_slug-normalize_slug (codes "!!!")

abbrev shorts : ℕ → Option Text
shorts i = some (codes "abcd1234")

shorts_given : GivesShorts shorts
unfolding is_alnum
shorts_given = λ i. (codes "abcd1234", refl, record { eight = refl; bytes = refl })

retired_slug_lem_example :
    SlugSpec shorts
      (machine ∷ [])
      (retired_base (codes "box-1"))
      (codes "m_2")
      20
      0
      (retired_slug shorts (machine ∷ []) (codes "box-1") (codes "m_2"))
retired_slug_lem_example =
    retired_slug_lem shorts (machine ∷ []) (codes "box-1") (codes "m_2") shorts_given

allocate_port_lem_example :
    PortSpec (λ p. false) (tunnel ∷ []) hub (allocate_port (λ p. false) (tunnel ∷ []) hub)
allocate_port_lem_example = allocate_port_lem (λ p. false) (tunnel ∷ []) hub

verify_secret-hash_secret_example : verify_secret toy (codes "s") secret_hash ≡ true
unfolding hash_secret
verify_secret-hash_secret_example = verify_secret-hash_secret toy [] (codes "s") refl

abbrev metadata : Value
metadata = obj (field (codes "os") (arr (cons (str (codes "linux")) nil)) end)

validate_value-bounds_example : (height metadata ≤ 4) × (longest metadata ≤ 256)
unfolding validate_value
validate_value-bounds_example = validate_value-bounds metadata refl
