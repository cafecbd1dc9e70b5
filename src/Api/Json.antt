-- ===== src/Api/Json.antt =====
-- api.go: the JSON that a client sends along as metadata, and `validateMetadataValue`.
use reach.Base.{
  ℕ, suc, ◌+◌, ◌≤◌, ◌≡◌, Bool, Option, none, some, arith, ltb, if◌then◌else◌, length, Text,
}
use Prim.Native.Nat.{max}
use reach.Base.Int.{ℤ}

-- Values, with the items of an array and the entries of an object; `num` is a float that is whole.
mutual
  pub data Value : Type 0 where
    null : Value
    bool : Bool → Value
    num : ℤ → Value
    str : Text → Value
    arr : Items → Value
    obj : Fields → Value

  pub data Items : Type 0 where
    nil : Items
    cons : Value → Items → Items

  pub data Fields : Type 0 where
    end : Fields
    field : Text → Value → Fields → Fields

abbrev pub count_items : Items → ℕ
count_items nil = 0
count_items (cons v vs) = suc (count_items vs)

abbrev pub count_fields : Fields → ℕ
count_fields end = 0
count_fields (field k v fs) = suc (count_fields fs)

pub data MetaError : Type 0 where
  too_deep string_too_long too_many_keys key_too_long array_too_long too_large : MetaError

abbrev first_error : Option MetaError → Option MetaError → Option MetaError
first_error none later = later
first_error (some e) later = some e

abbrev check : Bool → MetaError → Option MetaError → Option MetaError
check bad e later = if bad then some e else later

-- `validateMetadataValue`; `none` is no error. The entries of an object are checked in the order
-- in which they stand here.
unfoldable mutual
  pub validate_value : Value → ℕ → Option MetaError
  validate_value null depth = check (ltb 4 depth) too_deep none
  validate_value (bool b) depth = check (ltb 4 depth) too_deep none
  validate_value (num n) depth = check (ltb 4 depth) too_deep none
  validate_value (str s) depth =
      check (ltb 4 depth) too_deep (check (ltb 256 (length s)) string_too_long none)
  validate_value (arr vs) depth =
      check (ltb 4 depth) too_deep
        (check (ltb 32 (count_items vs)) array_too_long (validate_items vs (depth + 1)))
  validate_value (obj fs) depth =
      check (ltb 4 depth) too_deep
        (check (ltb 32 (count_fields fs)) too_many_keys (validate_fields fs (depth + 1)))

  pub validate_items : Items → ℕ → Option MetaError
  validate_items nil depth = none
  validate_items (cons v vs) depth = first_error (validate_value v depth) (validate_items vs depth)

  pub validate_fields : Fields → ℕ → Option MetaError
  validate_fields end depth = none
  validate_fields (field k v fs) depth =
      check (ltb 64 (length k)) key_too_long
        (first_error (validate_value v depth) (validate_fields fs depth))

-- How deep a value is nested, and the longest text in it.
mutual
  pub height : Value → ℕ
  height null = 0
  height (bool b) = 0
  height (num n) = 0
  height (str s) = 0
  height (arr vs) = height_items vs
  height (obj fs) = height_fields fs

  pub height_items : Items → ℕ
  height_items nil = 0
  height_items (cons v vs) = max (height v + 1) (height_items vs)

  pub height_fields : Fields → ℕ
  height_fields end = 0
  height_fields (field k v fs) = max (height v + 1) (height_fields fs)

mutual
  pub longest : Value → ℕ
  longest null = 0
  longest (bool b) = 0
  longest (num n) = 0
  longest (str s) = length s
  longest (arr vs) = longest_items vs
  longest (obj fs) = longest_fields fs

  pub longest_items : Items → ℕ
  longest_items nil = 0
  longest_items (cons v vs) = max (longest v) (longest_items vs)

  pub longest_fields : Fields → ℕ
  longest_fields end = 0
  longest_fields (field k v fs) = max (max (length k) (longest v)) (longest_fields fs)

mutual
  unfolding validate_value height longest

  bounded :
      (v : Value) (depth : ℕ)
      → validate_value v depth ≡ none
      → (height v + depth ≤ 4) × (longest v ≤ 256)
  bounded null depth h = ground arith
  bounded (bool b) depth h = ground arith
  bounded (num n) depth h = ground arith
  bounded (str s) depth h = ground arith
  bounded (arr vs) depth h = ground (arith, bounded_items vs (depth + 1))
  bounded (obj fs) depth h = ground (arith, bounded_fields fs (depth + 1))

  bounded_items :
      (vs : Items) (depth : ℕ)
      → depth ≤ 5
      → validate_items vs depth ≡ none
      → (height_items vs + depth ≤ 5) × (longest_items vs ≤ 256)
  bounded_items nil depth d h = ground arith
  bounded_items (cons v vs) depth d h = ground (arith, bounded v depth, bounded_items vs depth d)

  bounded_fields :
      (fs : Fields) (depth : ℕ)
      → depth ≤ 5
      → validate_fields fs depth ≡ none
      → (height_fields fs + depth ≤ 5) × (longest_fields fs ≤ 256)
  bounded_fields end depth d h = ground arith
  bounded_fields (field k v fs) depth d h =
      ground (arith, bounded v depth, bounded_fields fs depth d)

-- Metadata that `validateMetadataValue` accepts is nested at most four deep, and no text or key in
-- it has more than 256 bytes.
pub validate_value-bounds :
    (v : Value) → validate_value v 0 ≡ none → (height v ≤ 4) × (longest v ≤ 256)
validate_value-bounds v h = omega (arith, bounded v 0 h)
