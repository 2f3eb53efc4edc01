-- ===== src/Lib.antt =====
-- crustyDB, a database of heap-file storage, a buffer pool, query operators, an optimizer and a
-- client and server. What is modelled here, and where:
--
-- - HeapPage and its children: src/storage/heapstore/src/heap_page.rs, the slotted page. Header
--   has the counters and the slot metadata, Space `compact_page` and `write_value_at_slot`, Values
--   `add_value`, `get_value`, `delete_value` and `update_value`, Iter `HeapPageIter`. A page is the
--   function from an index to its byte; a panic (an index out of the page, an overflow that a
--   debug build checks) is the result `none`. Layout reads the metadata off the bytes, Wf says
--   when they are well-formed, and `contents` in Reading is the abstract view: the value in each
--   slot. The other children prove, for one operation each, how the bytes and the view change.
-- - Latch: src/common/src/rwlatch.rs, the spin lock. Each method is its atomic actions, which a
--   schedule interleaves with those of other threads; a thread takes and releases only what the
--   method needs and what it holds.
-- - Page: src/storage/heapstore/src/page.rs, the fixed header of a page (Fields, and Sequence for
--   the log sequence number) and `compare_page` (Differences). The hash of the checksum is any
--   function.
-- - Expr: src/common/src/query/expr.rs and operation.rs, the expressions of a query; Bytecode has
--   the stack machine of src/common/src/query/bytecode_expr.rs and the compiler of
--   src/queryexe/src/query/planner.rs, over any type of fields with its operators. Meaning is what
--   an expression means without the machine. The machine runs on fuel, as much as it has codes.
-- - Query: src/queryexe/src/opiterator, the query operators TupleIterator, Filter, Project,
--   CrossJoin, NestedLoopJoin (with `compare_fields` of src/common/src/datatypes.rs), Sort,
--   HashJoin for HashEqJoin and Aggregate, and the tuples of src/common/src/tuple.rs. OpIterator is
--   the interface that an operator takes of its children, and IsStream, in Streams, what it promises
--   its caller; IsPass, in Executor, is the weaker promise to an executor that reads it once. Columns
--   says what the aggregates of a group are. Draining
--   is the loop of an `open` that reads a child to its end, Keys what the keys of tuples are. The
--   order in which a hash map gives its entries, the comparison and equality of fields and the
--   average of floating-point numbers are parameters. Executor is `execute` of
--   src/queryexe/src/query/executor.rs. The loops run on fuel, a number that the caller gives.
-- - Order: Rust's comparisons, the lexicographic order of slices and the stable sort of a slice.
-- - BaseFile, BufferPool: src/storage/heapstore/src/base_file.rs, container_file_catalog.rs and
--   buffer_pool/. The operating system's file operations are a parameter, Disk, with IsDisk for
--   what is relied on, and the files have fewer than 2^32 pages. BaseFile's debug assertions, that a
--   page has the id it is read or written under and that a page to read is in its file, panic here
--   too, so that a well-formed pool is one whose pages have the ids they are kept under. BufferPool has the state; Mapping is PageToFrame, Catalog the containers,
--   Frames the frames and their guards, Serving the choice of a victim, the write-back and the
--   page fault, Pages and Flush the methods of MemPool. A method is a function of the pool that
--   runs alone; a guard is the latch of a frame. Invariant says when a pool is well-formed and
--   what a page of the database holds: what its frame has, or else its file. The other children
--   follow a page through one method each.
-- - HeapFile: src/storage/heapstore/src/heap_file.rs, values on the pages that the pool serves.
--   Guards and Edits say what taking a page and giving it back does to the pool; Stored and
--   Scanning bring this together with what the heap page's operations do.
--   Iter is HeapFileIter, whose loop runs on fuel: a round for each slot and one for each page.
-- - Field: src/common/src/datatypes.rs, the fields of tuples and their bytes. Codec reads them back;
--   Comparing is the derived order.
-- - Index: src/index/src/tree.rs, `search` and `delete` of the tree index. Index has the entries of
--   a page and `find_child`, Search and Delete the methods; the tree's loops are `find_leaf`, of the
--   nodes, and the walks along the leaves. Runs, Ordered and Lookup are about the chain of leaves,
--   Tree and Descent about the nodes above it, Finding brings both together. Erasing is about the
--   entries of one page, Deletion and Removing about those of the chain. The decoder of entries and
--   the pages served are parameters; `insert` and its splits are not modelled.
-- - MemStore: src/storage/memstore/src/storage_manager.rs, the storage manager in memory, whose
--   containers are maps from value ids to bytes. Values and Updating are about its operations, Scan
--   about its iterator, whose loop runs on the slots that are left.
-- - Ids: src/common/src/ids.rs, value ids and log sequence numbers.
-- - Bytes and Prelude: byte slices and little-endian numbers, lists, tests, panics.
-- - Tests: runs of the definitions on concrete inputs.
--
-- Bounds: a page has 4096 bytes and numbers on it are of 16 bits. Fewer than 32768 threads share
-- a latch, as the counter's comment in the source asks. The iterator is run on a number of calls,
-- one more than there are slots. Filter's `next` needs one round more than its child has tuples,
-- CrossJoin's two more than its left child has, NestedLoopJoin's two more than there are pairs and
-- left tuples. A loop that reads a child to its end needs one round more than the child has tuples,
-- HashEqJoin's `next` one more than its right child has. The search of an index needs more rounds
-- than the tree has levels and than it has leaves.
-- The pool's loops are over its frames or its hints. Container and page counts are of 32 bits.
-- Not modelled: the query parser and the optimizer, the network, what the operating system does
-- with files, interleavings inside a method of the pool, statistics, and the printers.
pub mod BaseFile
pub mod BufferPool
pub mod Bytes
pub mod Expr
pub mod Field
pub mod HeapFile
pub mod HeapPage
pub mod Ids
pub mod Index
pub mod Latch
pub mod MemStore
pub mod Order
pub mod Page
pub mod Prelude
pub mod Query
pub mod Tests
