-- ===== src/Resource/Index.antt =====
-- ofrak_core/ofrak/service/resource_service.py: `ResourceAttributeIndex`, and the filters of one
-- attribute that walk it. Values and node ids are numbers. `LOW_VALUE` and `HIGH_VALUE` make a
-- search compare the values alone.
pub mod Walk
pub mod Update
use ofrak.Prelude.{
  ℕ, Bool, true, false, ◌&&◌, ◌||◌, Option, none, some, List, [], ◌∷◌, ◌++◌, map, Result, ok, err,
  Error, ◌>>=◌, ltb, leb, ◌==◌, if◌then◌else◌, insert_by, Dict, dict_get, dict_set, dict_del, drop,
  take,
}
use ofrak.Range.{Range, mk_range, range_length}
use ofrak.Data.Grid.{Axis, bisect_left, bisect_right, lower_index, upper_index}

-- `(value, node)` entries, and the values by node
pub record AttributeIndex : Type 0 where
  pub index : Axis ℕ
  pub values_by_node_id : Dict ℕ

-- the order of the entries: by value, then by node
abbrev pub entry_lt : ℕ × ℕ → ℕ × ℕ → Bool
entry_lt a b = ltb a.0 b.0 || (a.0 == b.0 && ltb a.1 b.1)

-- `SortedList.remove`: the first equal entry
unfoldable pub remove_entry : ℕ × ℕ → Axis ℕ → Result (Axis ℕ)
remove_entry e [] = err Error.value_error
remove_entry e (x ∷ index) = elim (e.0 == x.0 && e.1 == x.1) [
  | true ↦ ok index
  | false ↦ do rest ← remove_entry e index; ok (x ∷ rest)
]

unfoldable pub add_resource_attribute : ℕ → ℕ → AttributeIndex → Result AttributeIndex
add_resource_attribute value node ix = elim (dict_get node ix.values_by_node_id) [
  | some known ↦ if known == value then ok ix else err Error.value_error
  | none ↦ ok (record {
    index = insert_by entry_lt (value, node) ix.index;
    values_by_node_id = dict_set node value ix.values_by_node_id;
  })
]

unfoldable pub remove_resource_attribute : ℕ → AttributeIndex → Result AttributeIndex
remove_resource_attribute node ix = elim (dict_get node ix.values_by_node_id) [
  | none ↦ ok ix
  | some value ↦ do
    index ← remove_entry (value, node) ix.index
    ok (record { index = index; values_by_node_id = dict_del node ix.values_by_node_id })
]

-- `ResourceAttributeRangeFilterLogic`: the range of the index, and the test
unfoldable pub compute_range : Option ℕ → Option ℕ → Axis ℕ → Result Range
compute_range min max index = mk_range (lower_index index min true) (upper_index index max false)

unfoldable pub range_filter : Option ℕ → Option ℕ → Option ℕ → Result Bool
range_filter min max none = ok false
range_filter (some min) (some max) (some value) = ok (leb min value && ltb value max)
range_filter (some min) none (some value) = ok (leb min value)
range_filter none (some max) (some value) = ok (ltb value max)
range_filter none none (some value) = err Error.value_error

-- `ResourceAttributeValueFilterLogic`
unfoldable pub compute_value_range : ℕ → Axis ℕ → Result Range
compute_value_range value index = mk_range (bisect_left index value) (bisect_right index value)

unfoldable pub value_filter : ℕ → Option ℕ → Bool
value_filter value none = false
value_filter value (some v) = v == value

-- the nodes of a list of entries, last first
unfoldable pub nodes_reversed : Axis ℕ → List ℕ
nodes_reversed [] = []
nodes_reversed ((_, node) ∷ entries) = nodes_reversed entries ++ node ∷ []

-- `walk` over one range of the index: upwards from its start, or downwards from its end
unfoldable pub walk : Bool → Range → Axis ℕ → List ℕ
unfolding nodes_reversed
walk true r index = map (λ e. e.1) (drop r.start (take r.end index))
walk false r index = nodes_reversed (drop r.start (take r.end index))
