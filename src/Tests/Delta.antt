-- ===== src/Tests/Delta.antt =====
-- Deltas between small values.
use go_kube_ops_view.Prelude.{◌≡◌, refl, String, List, [], ◌∷◌, true, false}
use go_kube_ops_view.Json.{
  null, Json, bool, num, str, obj, Fields, end, field, natural, lookup, deep_equal,
}
use go_kube_ops_view.Json.View.{SameView}
use go_kube_ops_view.Delta.{DiffStanza}
use go_kube_ops_view.Delta.Optimize.{optimize_delta, turns, turn, remove_index, cut_out, same_key}
use go_kube_ops_view.Delta.Optimize.LastWins.{last_of_each, optimize_delta_lem}
use go_kube_ops_view.Delta.Patch.{patch}
use go_kube_ops_view.Delta.Calculator.Sound.{IsUnique, delta_lem}
use go_kube_ops_view.Delta.Calculator.Aliasing.{wrong_member}
use go_kube_ops_view.Delta.Slices.{slices, paths, append_slice}
use go_kube_ops_view.Delta.Calculator.{is_terminal, delta}

abbrev change : List String → Json → DiffStanza (List String)
change key value = record { key = key; value = value }

abbrev old : Json
old = obj (field "a" (num (natural 1)) (field "b" (str "x") end))

abbrev new : Json
new = obj (field "a" (num (natural 2)) (field "b" (str "x") end))

one_change : delta slices [] old new ≡ change ("a" ∷ []) (num (natural 2)) ∷ []
unfolding delta lookup deep_equal append_slice
one_change = refl

abbrev in_node : Fields → Json
in_node fs = obj (field "nodes" (obj (field "n" (obj (field "status" (obj fs) end)) end)) end)

delta_lem_example : SameView (patch (delta paths tt old new) old) new
unfolding IsUnique lookup
delta_lem_example = delta_lem old new (refl, tt, (refl, tt, tt)) (refl, tt, (refl, tt, tt))

abbrev before : Json
before = in_node (field "ready" (bool true) (field "phase" (str "p") end))

abbrev after : Json
after = in_node (field "ready" (bool false) (field "phase" (str "p") end))

wrong_member_example :
    (delta slices [] before after
      ≡ change ("nodes" ∷ "n" ∷ "status" ∷ "phase" ∷ []) (bool false) ∷ [])
    × (delta paths tt before after
        ≡ change ("nodes" ∷ "n" ∷ "status" ∷ "ready" ∷ []) (bool false) ∷ [])
unfolding deep_equal is_terminal
wrong_member_example =
    wrong_member "nodes" "n" "status" "ready" "phase" (bool true) (bool false) (str "p") refl refl
      refl refl

abbrev changes : List (DiffStanza (List String))
changes =
    change ("a" ∷ []) (num (natural 1))
    ∷ change ("b" ∷ []) null
    ∷ change ("a" ∷ []) (num (natural 2))
    ∷ change ("b" ∷ "c" ∷ []) null
    ∷ []

optimize_delta_lem_example : optimize_delta changes ≡ last_of_each changes
optimize_delta_lem_example = optimize_delta_lem changes

kept_changes :
    optimize_delta changes
    ≡ change ("b" ∷ []) null
      ∷ change ("a" ∷ []) (num (natural 2))
      ∷ change ("b" ∷ "c" ∷ []) null
      ∷ []
unfolding optimize_delta turns turn remove_index cut_out same_key
kept_changes = refl
