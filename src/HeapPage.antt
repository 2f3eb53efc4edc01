-- ===== src/HeapPage.antt =====
-- src/storage/heapstore/src/heap_page.rs: the slotted page. A page is its array of 4096 bytes:
-- 16 bytes of page header, 8 of heap metadata (number of slots, free space pointer, deleted
-- bytes, deleted slots), 4 for each slot (offset and length, little-endian u16), and the values,
-- which grow down from the end of the page.
-- A result `none` of type `OrPanic` is a panic: a slice out of bounds, or an overflow, which a
-- debug build checks. A `&mut self` method returns the new page.
pub mod Header
pub mod Space
pub mod Values
pub mod Iter
pub mod Layout
pub mod Wf
pub mod Reading
pub mod Freeing
pub mod Sorting
pub mod Repacking
pub mod Compacting
pub mod Writing
pub mod Deleting
pub mod Updating
pub mod InPlace
pub mod Adding
pub mod Claiming
pub mod Collecting
pub mod Starting
