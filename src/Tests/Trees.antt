-- ===== src/Tests/Trees.antt =====
-- `children` on a small tree: 1 has 2 and 3, 2 has 4, 3 is older than 1, 5 has ended.
use psutil.Prelude.{
  ℕ, true, some, List, [], ◌∷◌, ok, err, Error, Result, ◌≡◌, ◌↔◌, refl, elem, ℕ_discrete, ltb,
  if◌then◌else◌,
}
use psutil.Process.Children.{PpidMap, kids, direct, descendants}
use psutil.Process.Children.Walk
use psutil.Process.Children.Walk.{Descends}

abbrev look : ℕ → Result ℕ
look n =
    if ltb n 3
    then ok 10
    else if ltb n 4
    then ok 5
    else if ltb n 5
    then ok 20
    else err (Error.no_such_process n)

abbrev tree : PpidMap
tree = (2, 1) ∷ (3, 1) ∷ (4, 2) ∷ (5, 2) ∷ (6, 3) ∷ []

whole_tree : descendants look 10 tree 1 ≡ some (ok (2 ∷ 4 ∷ []))
unfolding descendants ℕ_discrete
whole_tree = refl

direct_children : direct look 10 (kids tree 1) [] ≡ ok (2 ∷ [])
unfolding direct kids
direct_children = refl

descendants_total_example : (r : Result (List ℕ)) × (descendants look 10 tree 1 ≡ some r)
descendants_total_example = Walk.descendants_total look 10 tree 1

descendants_iff_example : (elem 4 (2 ∷ 4 ∷ []) ≡ true) ↔ Descends look 10 tree 1 4
descendants_iff_example = Walk.descendants_iff look 10 tree 1 (2 ∷ 4 ∷ []) 4 whole_tree
