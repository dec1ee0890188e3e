-- ===== src/Tests/ResourceTests.antt =====
-- ofrak_core/ofrak/service/resource_service.py: the theorems on the attribute index at concrete
-- inputs.
use ofrak.Prelude.{
  ℕ, ◌≡◌, ◌≢◌, Bool, true, false, none, some, [], ◌∷◌, map, arith, ok, err, Error, count, dict_get,
}
use ofrak.Range.{Range}
use ofrak.Data.Grid.{Axis}
use ofrak.Resource.Index.{
  AttributeIndex, add_resource_attribute, compute_range, walk, nodes_reversed,
}
use ofrak.Resource.Index.Walk.{passing, walk_exact}
use ofrak.Resource.Index.Update.{SortedFrom, add_resource_attribute_exact}

abbrev entries : Axis ℕ
entries = (3, 1) ∷ (5, 2) ∷ (5, 4) ∷ (8, 3) ∷ []

walk_exact_example :
    (r : Range) × (compute_range (some 4) (some 8) entries ≡ ok r)
    × (walk true r entries ≡ map (λ e. e.1) (passing (some 4) (some 8) entries))
    × (walk false r entries ≡ nodes_reversed (passing (some 4) (some 8) entries))
walk_exact_example = walk_exact (some 4) (some 8) entries (omega arith) (omega arith)

abbrev indexed : AttributeIndex
indexed = record { index = entries; values_by_node_id = (1, 3) ∷ (2, 5) ∷ (4, 5) ∷ (3, 8) ∷ [] }

add_resource_attribute_exact_example :
    (dict_get 6 indexed.values_by_node_id ≡ none
      → (ix' : AttributeIndex) × (add_resource_attribute 5 6 indexed ≡ ok ix')
        × SortedFrom (0, 0) ix'.index
        × ((p : ℕ × ℕ → Bool) → count p ix'.index ≡ count p ((5, 6) ∷ entries))
        × (dict_get 6 ix'.values_by_node_id ≡ some 5))
    × (dict_get 6 indexed.values_by_node_id ≡ some 5
        → add_resource_attribute 5 6 indexed ≡ ok indexed)
    × ((known : ℕ)
        → dict_get 6 indexed.values_by_node_id ≡ some known
        → known ≢ 5
        → add_resource_attribute 5 6 indexed ≡ err Error.value_error)
add_resource_attribute_exact_example = add_resource_attribute_exact 5 6 indexed (ground arith)
