-- ===== src/Lib.antt =====
-- A model of the core of OFRAK, a framework that unpacks, analyses, modifies and repacks binaries.
--
-- A binary is a root of data, and the resources inside it are ranges of that root. The free space
-- of a program is kept as ranges of addresses, from which patches are allocated.
--
-- Parts and files
--   Range        ofrak_type/ofrak_type/range.py: `Range` with its operations (`translate`, `split`,
--                `intersect`, `overlaps`, ...), `Range.merge_ranges`, `chunk_ranges` and
--                `remove_subranges`. The other parts compute with it.
--   FreeSpace    ofrak_core/ofrak/core/free_space.py: `Allocatable`, its `_allocate` (here
--                `find_allocation`) and its cached free ranges, `FreeSpaceAnalyzer` (`analyze`),
--                in FreeSpace/Modifier `RemoveFreeSpaceModifier` (`modify`), in FreeSpace/Allocate
--                `Allocatable.allocate`, and in FreeSpace/Freeing `FreeSpaceModifier`
--                (`free_region`) and `PartialFreeSpaceModifier` (`free_part`), with the parts of
--                ofrak_core/ofrak/core/memory_region.py and of binary.py beside it that they use.
--   Data         ofrak_core/ofrak/service/data_service.py and ofrak_core/ofrak/model/data_model.py:
--                Data/Service is `DataService`, Data/Root is `_DataRoot`, Data/Grid holds the
--                sorted two-dimensional arrays of a root, Data/Shift moves them when data is
--                resized, and Data/Tracker is `_PatchResizeTracker`. `Mirrored` (Data/Root/Index)
--                says that the two grids of a root agree, `Consistent` (Data/Service/Consistent)
--                that the models, the roots and their grids do, and `Reaches`
--                (Data/Service/Reach) is the step relation of its calls.
--   Resource     ofrak_core/ofrak/service/resource_service.py: Resource/Node is `ResourceNode` (the
--                tree), Resource/Index is `ResourceAttributeIndex` with the walks and tests of the
--                range and value filters, Resource/Store is the state of `ResourceService` with
--                `create`, `rebase_resource`, the deletions and the lookups, Resource/Filter holds the
--                filters of tags, values and ancestors and the sort, and Resource/Query the queries
--                for ancestors, descendants and siblings. `Linked` (Resource/Node/Chain) says that the
--                ancestors and depths of all nodes agree with those of their parents.
--   Model        ofrak_core/ofrak/model/resource_model.py: `MutableResourceModel` with the
--                `ResourceModelDiff` of its changes, for the tags and the attributes. `Edited`
--                (Model/Save) is the step relation of its operations.
--   Flash        ofrak_core/ofrak/core/flash.py: Flash holds its types, Flash/Format and Flash/Blocks
--                are `FlashAttributes` (one block, and all blocks), Flash/Pack is `_build_block` and
--                the packer of logical data, Flash/Unpack the unpacker of a region with OOB bytes, and
--                Flash/Region the unpacker that finds that region.
--   Uf2          ofrak_core/ofrak/core/uf2.py: `unpack_file` is `Uf2Unpacker.unpack` and `pack_file`
--                `Uf2FilePacker.pack`, with the layout of `struct`.
--   Prelude      shared types and lemmas: results with the errors that the code raises, sorting,
--                dictionaries, integers, bytes.
--   Tests        the theorems at concrete inputs, and runs of the model. Tests/DataRuns runs the
--                data service from end to end, Tests/TreeTests the resource service.
--
-- Conventions
--   A function that raises returns a `Result`; `Error` names the exceptions. State is passed on
--   explicitly: a call that changes a service returns the new service. A call that raises returns
--   only the error, not the state that it leaves behind.
--   Addresses and offsets are natural numbers, so that the checks `start < 0` of the code have no
--   counterpart; an offset by which a range is moved is an integer, and where a translation would
--   start below zero it raises as the code does. A point that the patch tracker would shift below zero
--   is the error `below_zero` of the model; the code goes on with the negative number. Ids are numbers.
--   The data of a memory region is as long as its size.
--   A `dict` is an association list in the order of insertion. `list.sort` and `sorted` are an
--   insertion sort, which is stable as Python's is. `bisect` is the insertion point in a sorted
--   list. The sets of ids that the two grids of a root share are references into a heap, so that
--   the assertion on their identity is part of the model.
--   The loop of `remove_subranges` runs on fuel, three rounds for each range and each range to
--   remove, which the code never exceeds. `range(start, end, step)` makes as many rounds as it
--   has values. The loop that counts the data blocks of a flash has as many rounds as
--   there are bytes, and the search for a tail one more: each round takes at least one byte, or the
--   loop of the code does not end. The walks over the tree of resources have as fuel the number of
--   nodes, upwards with the depth of the first node. All other loops are structural recursion.
--   Digests, error correcting codes and checksums are parameters of the flash; a format of blocks is
--   an object with a reference, since the code compares formats by identity and by value, and the
--   iteration over the blocks is a generator that may stop at an error. The global `DATA_HASHES` is
--   passed on. A node of the tree of resources is an object under the id of its model; the tags that
--   a tag stands for, the values of indexed attributes and their dependents, which Python reads off
--   classes, are parameters, and so is the cost of a sort, which the code computes with a logarithm.
--   A set is walked in the order in which it was filled.
--   The views of a resource's `FreeSpace` descendants are a list, and an index query is a filter of
--   that list. What a modifier asks of the services (to delete a resource, to patch data, to create a
--   child) is part of the value it returns.
--
-- Not modelled
--   Of the resource service, `_update`, which applies a diff and updates the indexes; of a mutable
--   model, `reset`, the dependencies and the components that have run. The dependency handler, the
--   job service and the asynchronous front in resource.py; file formats, disassembler backends and
--   the patch maker, which mostly call external tools; the server, the command line and the
--   tutorial. Of uf2.py, the identifier. Of flash.py, the two packers that replace a resource by the
--   data of its child. Of free_space.py, `allocate_bom`. The sort in place of the lists given to
--   `remove_subranges`, but for the list that `allocate` returns. Of data_service.py, the upper end of
--   `_shift_grid_axis`, which no caller gives, `get_total_size_diff`, which nobody calls, and negative
--   points of the patch tracker.
pub mod Prelude
pub mod Range
pub mod Flash
pub mod FreeSpace
pub mod Data
pub mod Resource
pub mod Model
pub mod Uf2
mod Tests
