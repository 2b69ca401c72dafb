-- ===== src/Delta/Optimize.antt =====
-- `OptimizeDelta` of internal/delta/compression.go. Its index is a Go map from the JSON text of a key
-- to a position; two keys have one text exactly if they are the same path, so the map is a function
-- of the path here.
pub mod LastWins
use go_kube_ops_view.Prelude.{
  ℕ, zero, suc, ◌-◌, String, Bool, true, false, Option, none, some, List, [], ◌∷◌, ◌++◌, ◌==◌, ◌&&◌,
  ltb, leb, if◌then◌else◌, length,
}
use go_kube_ops_view.Delta.{DiffStanza}

abbrev pub Stanza : Type 0
Stanza = DiffStanza (List String)

-- keyToString(a) == keyToString(b)
unfoldable pub same_key : List String → List String → Bool
same_key [] [] = true
same_key (a ∷ k) (b ∷ l) = a == b && same_key k l
same_key _ _ = false

abbrev pub KeyMap : Type 0
KeyMap = List String → Option ℕ

-- keyMap[k] = n
abbrev pub store : List String → ℕ → KeyMap → KeyMap
store k n m j = if same_key k j then some n else m j

-- append(slice[:i], slice[i+1:]...)
unfoldable pub cut_out : ℕ → List Stanza → List Stanza
cut_out i [] = []
cut_out zero (d ∷ ds) = ds
cut_out (suc i) (d ∷ ds) = d ∷ cut_out i ds

-- An index out of range leaves the slice.
unfoldable pub remove_index : List Stanza → ℕ → List Stanza
remove_index ds i = if leb (length ds) i then ds else cut_out i ds

-- The loop that updates the indices after the removal at `i`.
abbrev pub shift : ℕ → Option ℕ → Option ℕ
shift i none = none
shift i (some v) = some (if ltb i v then v - 1 else v)

-- The redundant operation for the key of the stanza, if there is one, is taken out.
abbrev pub superseded : Stanza → List Stanza → KeyMap → List Stanza × KeyMap
superseded d optimized m = elim (m d.key) [
  | none ↦ (optimized, m)
  | some i ↦ (remove_index optimized i, λ j. shift i (m j))
]

-- One turn of the loop.
unfoldable pub turn : Stanza → List Stanza × KeyMap → List Stanza × KeyMap
turn d (optimized, m) =
    let (rest, m') = superseded d optimized m in
    let grown = rest ++ d ∷ [] in (grown, store d.key (length grown - 1) m')

unfoldable pub turns : List Stanza → List Stanza × KeyMap → List Stanza × KeyMap
turns [] s = s
turns (d ∷ ds) s = turns ds (turn d s)

unfoldable pub optimize_delta : List Stanza → List Stanza
optimize_delta delta = if leb (length delta) 1 then delta else (turns delta ([], λ k. none)).0
