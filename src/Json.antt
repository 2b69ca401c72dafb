-- ===== src/Json.antt =====
-- The values that `encoding/json` decodes into an `interface{}`. An object keeps its members as a
-- list whose order means nothing; a number is an integer, the only kind that a cluster's data has.
pub mod View
use go_kube_ops_view.Prelude.{
  ℕ, suc, String, Bool, true, false, Option, none, some, not, ◌&&◌, ◌==◌, nat_eq, if◌then◌else◌,
}

-- `negative n` is -(n + 1).
pub data Number : Type 0 where
  natural : ℕ → Number
  negative : ℕ → Number

mutual
  pub data Json : Type 0 where
    null : Json
    bool : Bool → Json
    num : Number → Json
    str : String → Json
    arr : Items → Json
    obj : Fields → Json

  pub data Items : Type 0 where
    nil : Items
    cons : Json → Items → Items

  pub data Fields : Type 0 where
    end : Fields
    field : String → Json → Fields → Fields

-- m[k] on a decoded object
unfoldable pub lookup : String → Fields → Option Json
lookup k end = none
lookup k (field j v fs) = if j == k then some v else lookup k fs

abbrev pub has : String → Fields → Bool
has k fs = elim (lookup k fs) [ none ↦ false | some _ ↦ true ]

-- len of an array and of an object
abbrev pub items_length : Items → ℕ
items_length nil = 0
items_length (cons _ xs) = suc (items_length xs)

abbrev pub fields_length : Fields → ℕ
fields_length end = 0
fields_length (field _ _ fs) = suc (fields_length fs)

number_eq : Number → Number → Bool
number_eq (natural a) (natural b) = nat_eq a b
number_eq (negative a) (negative b) = nat_eq a b
number_eq _ _ = false

bool_eq : Bool → Bool → Bool
bool_eq true b = b
bool_eq false b = not b

-- Every key of the first object is one of the second.
unfoldable pub covered : Fields → Fields → Bool
covered end gs = true
covered (field k _ fs) gs = has k gs && covered fs gs

-- reflect.DeepEqual on decoded values: two objects are equal if they have the same keys, with
-- deeply equal values.
unfoldable mutual
  unfolding number_eq bool_eq covered lookup

  pub deep_equal : Json → Json → Bool
  deep_equal null r = elim r [ null ↦ true | _ ↦ false ]
  deep_equal (bool a) r = elim r [ bool b ↦ bool_eq a b | _ ↦ false ]
  deep_equal (num a) r = elim r [ num b ↦ number_eq a b | _ ↦ false ]
  deep_equal (str s) r = elim r [ str t ↦ s == t | _ ↦ false ]
  deep_equal (arr xs) r = elim r [ arr ys ↦ equal_items xs ys | _ ↦ false ]
  deep_equal (obj fs) r = elim r [ obj gs ↦ equal_fields fs gs && covered gs fs | _ ↦ false ]

  pub equal_items : Items → Items → Bool
  equal_items nil ys = elim ys [ nil ↦ true | _ ↦ false ]
  equal_items (cons x xs) ys = elim ys [
    | nil ↦ false
    | cons y ys' ↦ deep_equal x y && equal_items xs ys'
  ]

  pub equal_fields : Fields → Fields → Bool
  equal_fields end gs = true
  equal_fields (field k v fs) gs =
      elim (lookup k gs) [ none ↦ false | some w ↦ deep_equal v w ] && equal_fields fs gs
