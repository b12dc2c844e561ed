-- ===== src/Device.antt =====
-- common/rrpc/container_device.hpp: a container of characters as a seekable device.
-- `std::streamsize` and `std::streampos` are signed; the model has no position before the start, so
-- `seek` gives a natural number, or nothing where the source makes the position negative.
pub mod Laws
use srpg.Base.{
  ℕ, some, none, [], List, Option, min, if◌then◌else◌, ◌++◌, ◌+◌, length, ◌-◌, ltb, ◌==◌, take,
  drop,
}
use srpg.Base.Int.{ℤ, pos, negsuc}

pub record ContainerDevice : Type 0 where
  pub container : List ℕ
  pub position : ℕ

-- `make_container_device(cnt)`
pub make_container_device : List ℕ → ContainerDevice
make_container_device cnt = record { container = cnt; position = 0 }

-- `read(s, n)`: the characters copied to `s`, or `none` for the end, which is -1. It is for a position
-- that is not past the end.
pub read : ContainerDevice → ℕ → Option (List ℕ) × ContainerDevice
read d n =
    let result = min n (length d.container - d.position) in
    if result == 0 then (none, d) else (
      some (take result (drop d.position d.container)),
      record d { position = d.position + result },
    )

-- The first part of `write(s, n)`: what fits over the characters that are there.
pub overwrite : ContainerDevice → List ℕ → ℕ × ContainerDevice
overwrite d s =
    if ltb d.position (length d.container)
    then (let result = min (length s) (length d.container - d.position) in
        (
          result,
          record {
            container =
                take d.position d.container
                ++ (take result s ++ drop (d.position + result) d.container);
            position = d.position + result;
          },
        ))
    else (0, d)

-- `write(s, n)`: the insertion takes all of `s` again.
pub write : ContainerDevice → List ℕ → ℕ × ContainerDevice
unfolding overwrite
write d s =
    let over = overwrite d s in
    let grown = over.1.container ++ s in
    (
      length s,
      if ltb over.0 (length s)
          then record { container = grown; position = length grown }
          else over.1,
    )

-- `way`; on `cur` the source adds to a variable that it has not set.
pub data Seekdir : Type 0 where
  beg : Seekdir
  cur : Seekdir
  end_ : Seekdir

-- `container_.size() + off`
offset_from : ℕ → ℤ → Option ℕ
offset_from n (pos k) = some (n + k)
offset_from n (negsuc k) = if ltb k n then some (n - (k + 1)) else none

-- `seek(off, way)`, where `unset` is what the variable `next` holds on `cur`.
pub seek : ContainerDevice → ℤ → Seekdir → ℕ → Option (ℕ × ContainerDevice)
unfolding offset_from
seek d off way unset =
    let from : ℕ = elim way [ beg ↦ 0 | cur ↦ unset | end_ ↦ length d.container ] in
    elim (offset_from from off) [
      | none ↦ none
      | some next ↦ some (next, record d { position = next })
    ]
