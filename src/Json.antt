-- ===== src/Json.antt =====
-- The JavaScript values that the program receives and stores (payloads, configurations, results).
-- `undefined` is `none` of `Option Json`.
use idm_mw.Prelude.{
  ℕ, suc, String, Bool, true, false, Option, none, some, List, [], ◌∷◌, Assoc, lookup,
}

-- Integers over the native numbers; `negsuc n` is -(n + 1).
pub data ℤ : Type 0 where
  pos negsuc : ℕ → ℤ

-- A `number`. `fraction k d` is a finite value strictly between `k` and `k + 1`; `d` tells such
-- values apart.
pub data Number : Type 0 where
  int : ℤ → Number
  fraction : (whole : ℤ) (digits : ℕ) → Number
  infinite : (positive : Bool) → Number
  nan : Number

mutual
  pub data Json : Type 0 where
    null : Json
    bool : Bool → Json
    num : Number → Json
    str : String → Json
    arr : Items → Json
    obj : Fields → Json

  pub data Items : Type 0 where
    nil : Items
    cons : Json → Items → Items

  pub data Fields : Type 0 where
    end : Fields
    field : String → Json → Fields → Fields

abbrev pub items : Items → List Json
items nil = []
items (cons v vs) = v ∷ items vs

-- `Object.entries`
abbrev pub entries : Fields → Assoc Json
entries end = []
entries (field k v fs) = (k, v) ∷ entries fs

-- `Object.fromEntries`, for entries whose keys differ.
abbrev pub from_entries : Assoc Json → Fields
from_entries [] = end
from_entries ((k, v) ∷ m) = field k v (from_entries m)

-- `Number.isFinite`
abbrev pub is_finite : Number → Bool
is_finite (int n) = true
is_finite (fraction n d) = true
is_finite _ = false

-- `Number.isInteger(n) && n > 0`
abbrev pub positive_int : Number → Option ℕ
positive_int (int (pos (suc n))) = some (suc n)
positive_int _ = none

-- `typeof value === 'object' && value !== null && !Array.isArray(value)`
abbrev pub as_record : Option Json → Option Fields
as_record (some (obj fs)) = some fs
as_record _ = none

abbrev pub get_field : Fields → String → Option Json
get_field fs k = lookup k (entries fs)
