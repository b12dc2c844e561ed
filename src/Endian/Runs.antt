-- ===== src/Endian/Runs.antt =====
-- Concrete runs of the conversions, and their theorems at concrete inputs.
use srpg.Base.{◌≡◌, refl, true, false, [], ◌∷◌, reverse}
use srpg.Base.Bytes.{to_bytes}
use srpg.Endian.{
  w16, w32, w64, reorder, reorder_copy, native_to_big, native_to_little, big_to_native,
  little_to_native,
}
use srpg.Endian.Laws.{image, native_to_fixed_order, fixed_order_to_native}

reorder_eight :
    reorder w64 (1 ∷ 2 ∷ 3 ∷ 4 ∷ 5 ∷ 6 ∷ 7 ∷ 8 ∷ []) ≡ 8 ∷ 7 ∷ 6 ∷ 5 ∷ 4 ∷ 3 ∷ 2 ∷ 1 ∷ []
unfolding reorder
reorder_eight = refl

reorder_copy_four : reorder_copy w32 (1 ∷ 2 ∷ 3 ∷ 4 ∷ []) (9 ∷ 9 ∷ 9 ∷ 9 ∷ []) ≡ 4 ∷ 3 ∷ 2 ∷ 1 ∷ []
unfolding reorder_copy
reorder_copy_four = refl

native_to_fixed_order_example :
    (native_to_little false w32 (image false w32 0x01020304) ≡ to_bytes 4 0x01020304)
    × (native_to_big false w32 (image false w32 0x01020304) ≡ reverse (to_bytes 4 0x01020304))
native_to_fixed_order_example = native_to_fixed_order false w32 0x01020304

fixed_order_to_native_example :
    (little_to_native true w16 (native_to_little true w16 (image true w16 0x0102))
      ≡ image true w16 0x0102)
    × (big_to_native true w16 (native_to_big true w16 (image true w16 0x0102))
        ≡ image true w16 0x0102)
fixed_order_to_native_example = fixed_order_to_native true w16 0x0102
