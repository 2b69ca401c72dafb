-- ===== src/Config/Texts.antt =====
-- What the program uses of Go's packages strings and strconv.
use Prim.Native.Char.{Char, code}
use Prim.Native.Nat.{◌^◌}
use go_kube_ops_view.Prelude.{
  ℕ, ◌+◌, ◌-◌, ◌*◌, String, Bool, true, false, Option, none, some, List, [], ◌∷◌, ◌==◌, ◌&&◌, ◌||◌,
  ltb, leb, nat_eq, any, if◌then◌else◌,
}
use go_kube_ops_view.Json.{Number, natural, negative}

-- The code points of a text with its ASCII letters in lower case. No other letter has one of
-- "true" as its lower case.
unfoldable pub lower_codes : String → List ℕ
lower_codes String.[] = []
lower_codes (String.◌∷◌ c s) =
    (if leb b'A' (code c) && leb (code c) b'Z' then code c + 32 else code c) ∷ lower_codes s

abbrev codes_eq : List ℕ → List ℕ → Bool
codes_eq [] [] = true
codes_eq (a ∷ s) (b ∷ t) = nat_eq a b && codes_eq s t
codes_eq _ _ = false

-- strings.ToLower(s) == "true"
unfoldable pub is_true : String → Bool
unfolding lower_codes
is_true s = codes_eq (lower_codes s) (lower_codes "true")

-- unicode.IsSpace
unfoldable pub is_space : Char → Bool
is_space c =
    let n = code c in
    (leb 9 n && leb n 13)
    || (leb 0x2000 n && leb n 0x200a)
    || any (nat_eq n)
        (0x20 ∷ 0x85 ∷ 0xa0 ∷ 0x1680 ∷ 0x2028 ∷ 0x2029 ∷ 0x202f ∷ 0x205f ∷ 0x3000 ∷ [])

unfoldable pub trim_left : String → String
unfolding is_space
trim_left String.[] = ""
trim_left (String.◌∷◌ c s) = let rest = trim_left s in if is_space c then rest else String.◌∷◌ c s

unfoldable pub trim_right : String → String
unfolding is_space
trim_right String.[] = ""
trim_right (String.◌∷◌ c s) =
    let rest = trim_right s in if rest == "" && is_space c then "" else String.◌∷◌ c rest

-- strings.TrimSpace
abbrev pub trim_space : String → String
trim_space s = trim_right (trim_left s)

abbrev pub prepend : Char → List String → List String
prepend c [] = String.◌∷◌ c "" ∷ []
prepend c (s ∷ l) = String.◌∷◌ c s ∷ l

-- strings.Split(s, sep) for one character
unfoldable pub split_at : ℕ → String → List String
split_at n String.[] = "" ∷ []
split_at n (String.◌∷◌ c s) =
    let rest = split_at n s in if nat_eq (code c) n then "" ∷ rest else prepend c rest

-- strings.Split(s, ",")
unfoldable pub split_comma : String → List String
unfolding split_at
split_comma s = split_at b',' s

-- The digits of a number, after some that were read.
unfoldable pub read_digits : String → ℕ → Option ℕ
read_digits String.[] n = some n
read_digits (String.◌∷◌ c s) n =
    let rest = read_digits s (n * 10 + (code c - b'0')) in
    if leb b'0' (code c) && leb (code c) b'9' then rest else none

abbrev number_of : String → Option ℕ
number_of s = if s == "" then none else read_digits s 0

abbrev minus : ℕ → Number
minus n = if nat_eq n 0 then natural 0 else negative (n - 1)

-- strconv.Atoi: a sign or none, digits, and the range of an int64.
unfoldable pub atoi : String → Option Number
unfolding read_digits
atoi String.[] = none
atoi (String.◌∷◌ c s) =
    if nat_eq (code c) b'-'
    then elim (number_of s) [
      | none ↦ none
      | some n ↦ if leb n (2 ^ 63) then some (minus n) else none
    ]
    else elim (number_of (if nat_eq (code c) b'+' then s else String.◌∷◌ c s)) [
      | none ↦ none
      | some n ↦ if ltb n (2 ^ 63) then some (natural n) else none
    ]
