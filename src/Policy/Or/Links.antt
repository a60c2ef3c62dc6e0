-- ===== src/Policy/Or/Links.antt =====
-- What the loop over `nextDigests` does to each node of the tree.
use native.Mathlib.Decide.{ℕ_discrete}
use mathlib.Core.Path.{subst}
use secboot.Prelude.{
  sym, ◌⊎◌, inl, ℕ, zero, suc, ◌+◌, ◌<◌, ◌≤◌, ◌≡◌, refl, ap, ◌∙◌, ◌≢◌, [], ◌∷◌, some, map, length,
  get_elem?, arith,
}
use secboot.Policy.Or.{PolicyOrDataNode, PolicyOrDataTree, set_next, link_level, parent_offset}

length-set_next :
    (nodes : PolicyOrDataTree) (j next : ℕ) → length (set_next nodes j next) ≡ length nodes
unfolding set_next
length-set_next [] j next = refl
length-set_next (node ∷ rest) zero next = refl
length-set_next (node ∷ rest) (suc j) next = ap suc (length-set_next rest j next)

get_elem?-set_next_self :
    (nodes : PolicyOrDataTree) (j next : ℕ) {node : PolicyOrDataNode}
    → get_elem? nodes j ≡ some node
    → get_elem? (set_next nodes j next) j ≡ some (record node { next = next })
unfolding set_next
get_elem?-set_next_self [] j next h = ground arith
get_elem?-set_next_self (x ∷ rest) zero next h = ground arith
get_elem?-set_next_self (x ∷ rest) (suc j) next h = get_elem?-set_next_self rest j next h

get_elem?-set_next_ne :
    (nodes : PolicyOrDataTree) (j next i : ℕ)
    → i ≢ j
    → get_elem? (set_next nodes j next) i ≡ get_elem? nodes i
unfolding set_next
get_elem?-set_next_ne [] j next i h = refl
get_elem?-set_next_ne (x ∷ rest) zero next zero h = absurd (h refl)
get_elem?-set_next_ne (x ∷ rest) zero next (suc i) h = refl
get_elem?-set_next_ne (x ∷ rest) (suc j) next zero h = refl
get_elem?-set_next_ne (x ∷ rest) (suc j) next (suc i) h =
    get_elem?-set_next_ne rest j next i (λ e. h (ap suc e))

pub length-link_level :
    (rounds i n cur : ℕ) (nodes : PolicyOrDataTree)
    → length (link_level rounds i n cur nodes) ≡ length nodes
unfolding link_level
length-link_level zero i n cur nodes = refl
length-link_level (suc rounds) i n cur nodes =
    length-link_level rounds (suc i) n cur _ ∙ length-set_next nodes _ _

-- Nodes before those of the round, or behind them, are as they were.
pub get_elem?-link_level_out :
    (rounds i n cur : ℕ) (nodes : PolicyOrDataTree) (j : ℕ)
    → (j < cur + i) ⊎ (cur + i + rounds ≤ j)
    → get_elem? (link_level rounds i n cur nodes) j ≡ get_elem? nodes j
unfolding link_level
get_elem?-link_level_out zero i n cur nodes j h = refl
get_elem?-link_level_out (suc rounds) i n cur nodes j h =
    get_elem?-link_level_out rounds (suc i) n cur _ j (omega arith)
    ∙ get_elem?-set_next_ne nodes (cur + i) _ j (omega arith)

-- Node `cur + k` gets the offset for `k`, and keeps its digests.
pub get_elem?-link_level_in :
    (rounds i n cur : ℕ) (nodes : PolicyOrDataTree) (k : ℕ) {node : PolicyOrDataNode}
    → i ≤ k
    → k < i + rounds
    → get_elem? nodes (cur + k) ≡ some node
    → get_elem? (link_level rounds i n cur nodes) (cur + k)
      ≡ some (record node { next = parent_offset n k })
unfolding link_level
get_elem?-link_level_in zero i n cur nodes k low high e = absurd (omega arith)
get_elem?-link_level_in (suc rounds) i n cur nodes k {node} low high e = elim (ℕ_discrete i k) [
  | yes p ↦
      get_elem?-link_level_out rounds (suc i) n cur _ (cur + k) (inl (omega arith))
      ∙ subst
          (λ m.
            get_elem? (set_next nodes (cur + m) (parent_offset n m)) (cur + k)
            ≡ some (record node { next = parent_offset n k }))
          (sym p) (get_elem?-set_next_self nodes (cur + k) _ e)
  | no p ↦
      get_elem?-link_level_in rounds (suc i) n cur _ k (omega arith) (omega arith)
        (get_elem?-set_next_ne nodes (cur + i) _ (cur + k) (omega arith) ∙ e)
]

map_digests-set_next :
    (nodes : PolicyOrDataTree) (j next : ℕ)
    → map (λ node. node.digests) (set_next nodes j next) ≡ map (λ node. node.digests) nodes
unfolding set_next
map_digests-set_next [] j next = refl
map_digests-set_next (x ∷ rest) zero next = refl
map_digests-set_next (x ∷ rest) (suc j) next =
    ap (λ l. x.digests ∷ l) (map_digests-set_next rest j next)

-- Linking a level changes no digests.
pub map_digests-link_level :
    (rounds i n cur : ℕ) (nodes : PolicyOrDataTree)
    → map (λ node. node.digests) (link_level rounds i n cur nodes)
      ≡ map (λ node. node.digests) nodes
unfolding link_level
map_digests-link_level zero i n cur nodes = refl
map_digests-link_level (suc rounds) i n cur nodes =
    map_digests-link_level rounds (suc i) n cur _ ∙ map_digests-set_next nodes _ _
