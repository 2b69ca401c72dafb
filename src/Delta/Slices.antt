-- ===== src/Delta/Slices.antt =====
-- The keys of internal/delta/calculator.go: Go slices over shared arrays, and the plain lists that
-- they are meant to be.
use go_kube_ops_view.Prelude.{
  ℕ, zero, suc, ◌*◌, String, List, [], ◌∷◌, ◌++◌, ltb, nat_eq, if◌then◌else◌, length,
}
use go_kube_ops_view.Delta.{Keys}

abbrev pub take {ℓ} : {A : Type ℓ} → ℕ → List A → List A
take zero l = []
take (suc n) [] = []
take (suc n) (x ∷ l) = x ∷ take n l

-- The array at an address: what was written to it so far.
abbrev pub array_at : List (List String) → ℕ → List String
array_at [] i = []
array_at (a ∷ h) zero = a
array_at (a ∷ h) (suc i) = array_at h i

abbrev pub set_array : List (List String) → ℕ → List String → List (List String)
set_array [] i b = []
set_array (a ∷ h) zero b = b ∷ h
set_array (a ∷ h) (suc i) b = a ∷ set_array h i b

-- a[n] = k; what was written from n + 1 on stays
abbrev pub write_at : ℕ → String → List String → List String
write_at n k [] = k ∷ []
write_at zero k (x ∷ l) = k ∷ l
write_at (suc n) k (x ∷ l) = x ∷ write_at n k l

pub record Slice : Type 0 where
  pub array : ℕ
  pub len : ℕ
  pub capacity : ℕ

-- The capacity of the array that `append` makes for one element more: twice the old one, as the Go
-- runtime has it below 256 elements.
abbrev pub grown : ℕ → ℕ
grown c = if nat_eq c 0 then 1 else 2 * c

-- append(s, k): into the array behind `s` if it has room, else into a new one.
unfoldable pub append_slice : Slice → String → List (List String) → Slice × List (List String)
append_slice s k h =
    let a = array_at h s.array in
    if ltb s.len s.capacity
    then (record s { len = suc s.len }, set_array h s.array (write_at s.len k a))
    else (
      record { array = length h; len = suc s.len; capacity = grown s.capacity },
      h ++ (take s.len a ++ k ∷ []) ∷ [],
    )

abbrev pub slices : Keys
slices = record {
  Key = Slice;
  Heap = List (List String);
  root = record { array = 0; len = 0; capacity = 0 };
  append = append_slice;
  read = λ h s. take s.len (array_at h s.array);
}

-- The keys as they are meant: values, which no later `append` changes.
abbrev pub paths : Keys
paths = record {
  Key = List String;
  Heap = Unit {0};
  root = [];
  append = λ key k h. (key ++ k ∷ [], h);
  read = λ h key. key;
}
