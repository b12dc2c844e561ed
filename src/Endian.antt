-- ===== src/Endian.antt =====
-- common/rrpc/conversion.hpp: byte order. An integer is seen as its bytes in memory, which is how
-- the code reads it (`reinterpret_cast<char*>`). The signed overloads have the unsigned ones' text.
pub mod Laws
mod Runs
use srpg.Base.{ℕ, Bool, if◌then◌else◌, List, get_or, set}

pub data Width : Type 0 where
  w16 w32 w64 : Width

-- `sizeof(x)`
abbrev pub size_of : Width → ℕ
size_of w16 = 2
size_of w32 = 4
size_of w64 = 8

-- `tmp = *(rep+i); *(rep+i) = *(rep+j); *(rep+j) = tmp;`
swap : ℕ → ℕ → List ℕ → List ℕ
swap i j rep = let tmp = get_or rep i 0 in set (set rep i (get_or rep j 0)) j tmp

-- `reorder(T& x)`
pub reorder : Width → List ℕ → List ℕ
unfolding swap
reorder w16 rep = swap 0 1 rep
reorder w32 rep = swap 1 2 (swap 0 3 rep)
reorder w64 rep = swap 3 4 (swap 2 5 (swap 1 6 (swap 0 7 rep)))

-- `*t = *s` with `s` at byte `i` of the source and `t` at byte `j` of the target.
copy_byte : ℕ → ℕ → List ℕ → List ℕ → List ℕ
copy_byte i j source target = set target j (get_or source i 0)

-- `reorder(T source, T& target)`: `t` walks down from the last byte while `s` walks up.
pub reorder_copy : Width → List ℕ → List ℕ → List ℕ
unfolding copy_byte
reorder_copy w16 s t = copy_byte 1 0 s (copy_byte 0 1 s t)
reorder_copy w32 s t = copy_byte 3 0 s (copy_byte 2 1 s (copy_byte 1 2 s (copy_byte 0 3 s t)))
reorder_copy w64 s t = copy_byte 7 0 s (
    copy_byte 6 1 s (
      copy_byte 5 2 s (
        copy_byte 4 3 s (copy_byte 3 4 s (copy_byte 2 5 s (copy_byte 1 6 s (copy_byte 0 7 s t)))))))

-- The in-place conversions; `little` says whether BOOST_LITTLE_ENDIAN is defined for the host.
pub native_to_big : Bool → Width → List ℕ → List ℕ
unfolding reorder
native_to_big little w x = if little then reorder w x else x

pub native_to_little : Bool → Width → List ℕ → List ℕ
unfolding reorder
native_to_little little w x = if little then x else reorder w x

pub big_to_native : Bool → Width → List ℕ → List ℕ
unfolding reorder
big_to_native little w x = if little then reorder w x else x

pub little_to_native : Bool → Width → List ℕ → List ℕ
unfolding reorder
little_to_native little w x = if little then x else reorder w x

-- The copying conversions on a little-endian host. (Those for a big-endian host use names that are
-- not their parameters'.)
pub native_to_big_copy : Width → List ℕ → List ℕ → List ℕ
unfolding reorder_copy
native_to_big_copy w source target = reorder_copy w source target

pub native_to_little_copy : Width → List ℕ → List ℕ → List ℕ
native_to_little_copy w source target = source

pub big_to_native_copy : Width → List ℕ → List ℕ → List ℕ
unfolding reorder_copy
big_to_native_copy w source target = reorder_copy w source target

pub little_to_native_copy : Width → List ℕ → List ℕ → List ℕ
little_to_native_copy w source target = source
