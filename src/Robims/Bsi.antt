-- ===== src/Robims/Bsi.antt =====
-- The bit-sliced index (robims/robims_bsi.h and robims_bsi.cpp): the value of an id is spread over
-- one bitmap for each bit, behind a bitmap of the ids that have a value.
pub mod Options
pub mod Range
pub mod Index
pub mod TopK
pub mod Typed
use myctk.Base.{
  ℕ, zero, suc, ◌+◌, ◌-◌, ◌^◌, ◌%◌, ◌<◌, Bool, true, false, not, ◌&&◌, ◌||◌, List, [], ◌∷◌, get_or,
  set, ltb, leb, ◌==◌, if◌then◌else◌,
}
use myctk.Robims.Bitmap.{RoaringBitmap}
