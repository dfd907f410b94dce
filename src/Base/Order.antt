-- ===== src/Base/Order.antt =====
-- `sort`, `sort_by` and `dedup` of `Vec`, over the Boolean order that the element type derives.
-- The standard library's sort is stable, so it is the insertion sort as a function.
mod Sorting
unfoldable pub use Sorting.*
