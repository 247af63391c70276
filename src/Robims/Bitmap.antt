-- ===== src/Robims/Bitmap.antt =====
-- The CRoaring bitmaps that robims works on (roaring/roaring.h, which is not part of the
-- repository), as an interface: the calls that robims makes, with their documented behaviour.
-- An in-place call returns the new bitmap; `roaring_bitmap_overwrite` is an assignment.
pub mod Flags
use myctk.Base.{ℕ, ◌+◌, ◌≡◌, ◌↔◌, Bool, true, false, not, ◌&&◌, ◌||◌, xor, List, length, elem, ◌==◌}

pub record RoaringBitmap : Type 1 where
  pub Bitmap : Type 0
  pub contains : Bitmap → ℕ → Bool
  -- an empty bitmap, as `acquire_bitmap` hands out
  pub create : Bitmap
  pub bitmap_and : Bitmap → Bitmap → Bitmap
  pub bitmap_andnot : Bitmap → Bitmap → Bitmap
  pub bitmap_or : Bitmap → Bitmap → Bitmap
  pub bitmap_xor : Bitmap → Bitmap → Bitmap
  pub add : Bitmap → ℕ → Bitmap
  pub remove : Bitmap → ℕ → Bitmap
  pub is_empty : Bitmap → Bool
  pub cardinality : Bitmap → ℕ
  pub to_uint32_array : Bitmap → List ℕ
  pub contains-create : (x : ℕ) → contains create x ≡ false
  pub contains-and :
      (a b : Bitmap) (x : ℕ) → contains (bitmap_and a b) x ≡ (contains a x && contains b x)
  pub contains-andnot :
      (a b : Bitmap) (x : ℕ) → contains (bitmap_andnot a b) x ≡ (contains a x && not (contains b x))
  pub contains-or :
      (a b : Bitmap) (x : ℕ) → contains (bitmap_or a b) x ≡ (contains a x || contains b x)
  pub contains-xor :
      (a b : Bitmap) (x : ℕ) → contains (bitmap_xor a b) x ≡ xor (contains a x) (contains b x)
  pub contains-add : (a : Bitmap) (y x : ℕ) → contains (add a y) x ≡ (x == y || contains a x)
  pub contains-remove :
      (a : Bitmap) (y x : ℕ) → contains (remove a y) x ≡ (not (x == y) && contains a x)
  pub is_empty_iff : (a : Bitmap) → (is_empty a ≡ true) ↔ ((x : ℕ) → contains a x ≡ false)
  pub cardinality_zero : (a : Bitmap) → (cardinality a ≡ 0) ↔ ((x : ℕ) → contains a x ≡ false)
  pub cardinality_ext :
      (a b : Bitmap) → ((x : ℕ) → contains a x ≡ contains b x) → cardinality a ≡ cardinality b
  pub cardinality-or :
      (a b : Bitmap)
      → cardinality (bitmap_or a b) + cardinality (bitmap_and a b) ≡ cardinality a + cardinality b
  pub elem-to_uint32_array : (a : Bitmap) (x : ℕ) → elem x (to_uint32_array a) ≡ contains a x
  pub length-to_uint32_array : (a : Bitmap) → length (to_uint32_array a) ≡ cardinality a
