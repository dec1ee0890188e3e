-- ===== src/Resource/Index/Update.antt =====
-- ofrak_core/ofrak/service/resource_service.py, `ResourceAttributeIndex`: adding a value keeps the
-- index sorted.
use ofrak.Prelude.{
  ℕ, ◌<◌, ◌⊎◌, ◌≤◌, ◌≡◌, ◌≢◌, Bool, none, some, [], ◌∷◌, arith, ok, err, Error, insert_by, count,
  count-insert, dict_get, dict_set, get-set, Bool-cases, ◌==◌, inl, inr,
}
use ofrak.Data.Grid.{Axis}
use ofrak.Resource.Index.{AttributeIndex, entry_lt, add_resource_attribute}
use ofrak.Resource.Index.Walk.{FromValue}

-- The entries are sorted by value and, where values are equal, by node.
abbrev pub InOrder : ℕ × ℕ → ℕ × ℕ → Type 0
InOrder a b = (a.0 < b.0) ⊎ ((a.0 ≡ b.0) × (a.1 ≤ b.1))

abbrev pub SortedFrom : ℕ × ℕ → Axis ℕ → Type 0
SortedFrom a [] = Unit
SortedFrom a (b ∷ index) = InOrder a b × SortedFrom b index

-- such an index is one that the walks need
pub SortedFrom-FromValue : (a : ℕ × ℕ) (index : Axis ℕ) → SortedFrom a index → FromValue a.0 index
SortedFrom-FromValue a [] s = tt
SortedFrom-FromValue a ((v, m) ∷ index) s =
    (ground (arith, s.0), SortedFrom-FromValue (v, m) index s.1)

insert-SortedFrom :
    (a b : ℕ × ℕ) (index : Axis ℕ)
    → SortedFrom a index
    → InOrder a b
    → SortedFrom a (insert_by entry_lt b index)
unfolding insert_by
insert-SortedFrom a b [] s h = (h, tt)
insert-SortedFrom a b (c ∷ index) s h = elim (Bool-cases (entry_lt b c)) [
  | inl e ↦ rw e (h, (ground (arith, e), s.1))
  | inr e ↦ rw e (s.0, insert-SortedFrom c b index s.1 (ground (arith, e)))
]

zero_first : (b : ℕ × ℕ) → InOrder (0, 0) b
zero_first (v, n) = elim (Bool-cases (v == 0)) [
  | inl e ↦ inr (ground (arith, e), omega arith)
  | inr e ↦ inl (ground (arith, e))
]

-- Adding a node that has no value in the index keeps the entries sorted by value and then by node,
-- adds exactly the entry of the node and its value, and records the value. Adding a node again returns the index unchanged for
-- the same value, and raises for another one.
pub add_resource_attribute_exact :
    (value node : ℕ) (ix : AttributeIndex)
    → SortedFrom (0, 0) ix.index
    → (dict_get node ix.values_by_node_id ≡ none
        → (ix' : AttributeIndex) × (add_resource_attribute value node ix ≡ ok ix')
          × SortedFrom (0, 0) ix'.index
          × ((p : ℕ × ℕ → Bool) → count p ix'.index ≡ count p ((value, node) ∷ ix.index))
          × (dict_get node ix'.values_by_node_id ≡ some value))
      × (dict_get node ix.values_by_node_id ≡ some value
          → add_resource_attribute value node ix ≡ ok ix)
      × ((known : ℕ)
          → dict_get node ix.values_by_node_id ≡ some known
          → known ≢ value
          → add_resource_attribute value node ix ≡ err Error.value_error)
unfolding add_resource_attribute
add_resource_attribute_exact value node ix s = (
  λ e. (
    record {
      index = insert_by entry_lt (value, node) ix.index;
      values_by_node_id = dict_set node value ix.values_by_node_id;
    },
    ground (arith, e),
    insert-SortedFrom (0, 0) (value, node) ix.index s (zero_first (value, node)),
    λ p. count-insert entry_lt p (value, node) ix.index,
    ground (arith, get-set node node value ix.values_by_node_id),
  ),
  λ e. ground (arith, e),
  λ known e d. ground (arith, e, d),
)
