-- ===== src/Json.antt =====
-- JSON values as Python's json module reads them: what `to_dict` makes and `from_dict` is given.
use diflow.Prelude.{ℕ, Bool, Option, none, some, String, ◌==◌, string_eq, if◌then◌else◌}

-- `negsuc n` is -(n + 1).
pub data ℤ : Type 0 where
  pos : ℕ → ℤ
  negsuc : ℕ → ℤ

-- The scalars int, float, bool and str; a float is kept as its shortest text, which reads back to it.
pub data Scalar : Type 0 where
  int : ℤ → Scalar
  float : String → Scalar
  bool : Bool → Scalar
  str : String → Scalar

mutual
  pub data Json : Type 0 where
    null : Json
    scalar : Scalar → Json
    array : Items → Json
    object : Fields → Json

  pub data Items : Type 0 where
    no_items : Items
    item : Json → Items → Items

  pub data Fields : Type 0 where
    no_fields : Fields
    field : String → Json → Fields → Fields

-- `data.get(key)`, where a missing key is told from None.
unfoldable pub get : String → Fields → Option Json
get key no_fields = none
get key (field k v fs) = if k == key then some v else get key fs

abbrev pub text : String → Json
text s = scalar (str s)
