-- ===== src/Endian/Laws.antt =====
-- Both forms of `reorder` reverse the bytes, and the conversions fix the order on every host.
use srpg.Base.{
  ℕ, ◌≡◌, refl, arith, List, [], ◌∷◌, reverse, length, Bool, not, ◌∙◌, false, true, if◌then◌else◌,
  length-reverse,
}
use srpg.Endian.{
  Width, w16, w32, w64, size_of, reorder, reorder_copy, native_to_little, native_to_big,
  little_to_native, big_to_native, native_to_big_copy, native_to_little_copy, big_to_native_copy,
  little_to_native_copy,
}
use srpg.Base.Bytes.{length-to_bytes, to_bytes}
use mathlib.Core.List.{reverse-reverse}

pub reorder-eq-reverse :
    (w : Width) (rep : List ℕ) → length rep ≡ size_of w → reorder w rep ≡ reverse rep
unfolding reorder
reorder-eq-reverse w16 (a ∷ b ∷ []) h = refl
reorder-eq-reverse w32 (a ∷ b ∷ c ∷ d ∷ []) h = refl
reorder-eq-reverse w64 (a ∷ b ∷ c ∷ d ∷ e ∷ f ∷ g ∷ i ∷ []) h = refl
reorder-eq-reverse _ _ h = absurd (omega arith)

-- The copying `reorder` writes every byte of the target, whatever it held.
pub reorder_copy-eq-reorder :
    (w : Width) (source target : List ℕ)
    → length source ≡ size_of w
    → length target ≡ size_of w
    → reorder_copy w source target ≡ reorder w source
unfolding reorder_copy reorder
reorder_copy-eq-reorder w16 (a ∷ b ∷ []) (a' ∷ b' ∷ []) h k = refl
reorder_copy-eq-reorder w32 (a ∷ b ∷ c ∷ d ∷ []) (a' ∷ b' ∷ c' ∷ d' ∷ []) h k = refl
reorder_copy-eq-reorder w64 (a ∷ b ∷ c ∷ d ∷ e ∷ f ∷ g ∷ i ∷ [])
      (a' ∷ b' ∷ c' ∷ d' ∷ e' ∷ f' ∷ g' ∷ i' ∷ []) h k =
    refl
reorder_copy-eq-reorder _ _ _ h k = absurd (omega arith)

-- The bytes of the value `v` in the memory of the host.
abbrev pub image : Bool → Width → ℕ → List ℕ
image little w v = if little then to_bytes (size_of w) v else reverse (to_bytes (size_of w) v)

length-image : (little : Bool) (w : Width) (v : ℕ) → length (image little w v) ≡ size_of w
length-image true w v = length-to_bytes (size_of w) v
length-image false w v = length-reverse (to_bytes (size_of w) v) ∙ length-to_bytes (size_of w) v

reorder-image :
    (little : Bool) (w : Width) (v : ℕ) → reorder w (image little w v) ≡ image (not little) w v
reorder-image true w v = reorder-eq-reverse w _ (length-image true w v)
reorder-image false w v =
    reorder-eq-reverse w _ (length-image false w v) ∙ reverse-reverse (to_bytes (size_of w) v)

-- On both hosts, for every value: `native_to_little` puts the bytes in memory least significant
-- first and `native_to_big` most significant first, whatever order the host keeps them in.
pub native_to_fixed_order :
    (little : Bool) (w : Width) (v : ℕ)
    → (native_to_little little w (image little w v) ≡ to_bytes (size_of w) v)
      × (native_to_big little w (image little w v) ≡ reverse (to_bytes (size_of w) v))
unfolding native_to_little native_to_big
native_to_fixed_order true w v = (refl, reorder-image true w v)
native_to_fixed_order false w v = (reorder-image false w v, refl)

-- On both hosts, for every value: each conversion back undoes the conversion out in place.
pub fixed_order_to_native :
    (little : Bool) (w : Width) (v : ℕ)
    → (little_to_native little w (native_to_little little w (image little w v)) ≡ image little w v)
      × (big_to_native little w (native_to_big little w (image little w v)) ≡ image little w v)
unfolding native_to_little native_to_big little_to_native big_to_native
fixed_order_to_native true w v = (refl, rw (reorder-image true w v) (reorder-image false w v))
fixed_order_to_native false w v = (rw (reorder-image false w v) (reorder-image true w v), refl)

-- A value sent in big-endian order by any host and received by any host is the same value.
pub big_endian_exchange :
    (from to : Bool) (w : Width) (v : ℕ)
    → big_to_native to w (native_to_big from w (image from w v)) ≡ image to w v
unfolding native_to_big big_to_native
big_endian_exchange true true w v = (fixed_order_to_native true w v).1
big_endian_exchange true false w v = reorder-image true w v
big_endian_exchange false true w v = reorder-image false w v
big_endian_exchange false false w v = refl

-- On a little-endian host each copying conversion leaves in the target what the conversion in place
-- makes of the source, for a source and a target of the type's size.
pub copy_conversions :
    (w : Width) (source target : List ℕ)
    → length source ≡ size_of w
    → length target ≡ size_of w
    → (native_to_big_copy w source target ≡ native_to_big true w source)
      × (native_to_little_copy w source target ≡ native_to_little true w source)
      × (big_to_native_copy w source target ≡ big_to_native true w source)
      × (little_to_native_copy w source target ≡ little_to_native true w source)
unfolding native_to_big native_to_little big_to_native little_to_native native_to_big_copy
    native_to_little_copy big_to_native_copy little_to_native_copy
copy_conversions w source target h k =
    let e = reorder_copy-eq-reorder w source target h k in (e, refl, e, refl)
