-- ===== src/Dispatch/Reads.antt =====
-- The two handlers of a read, around the loop over the packets.
use srpg.Base.{
  ℕ, some, [], true, false, refl, Bool, List, ◌≡◌, Option, if◌then◌else◌, ltb, ◌<◌, ltb-false, ◌++◌,
  arith, ◌∷◌, ltb-true,
}
use srpg.Session.{Called}
use srpg.Header.{Header}
use srpg.Package.{
  Package, Ipackage, new_package, size, in_avail, ignore, sizes, unpack_package_size, commit,
  unpack_packet_sizes, pack,
}
use srpg.Dispatch.{
  BasicConnection, Served, Reading, nothing, size_word, body, handle_read_package_size,
  handle_read_package, serve_packets, listen, send,
}
use srpg.Archive.{Archive}

module _ {Invoker : Type 0} where
  sized : BasicConnection Invoker → Ipackage → Bool → BasicConnection Invoker
  sized c ip b =
      if b
      then record c { ipackage = ip; reading = body ip.package_size }
      else record c { ipackage = ip; reading = size_word }

  sized-reading :
      (c : BasicConnection Invoker) (ip : Ipackage) (b : Bool)
      → (r : Reading) × (sized c ip b ≡ record c { ipackage = ip; reading = r })
  unfolding sized
  sized-reading c ip true = (body ip.package_size, refl)
  sized-reading c ip false = (size_word, refl)

  -- The size that is read is in the package, whatever is then waited for.
  pub handle_read_package_size-ipackage :
      (c : BasicConnection Invoker) (bytes : List ℕ)
      → (r : Reading) × (handle_read_package_size Invoker c false bytes
          ≡ record c { ipackage = unpack_package_size c.ipackage bytes; reading = r })
  unfolding handle_read_package_size listen sized
  handle_read_package_size-ipackage c bytes =
      let ip = unpack_package_size c.ipackage bytes in sized-reading c ip (ltb 0 ip.package_size)

module _ {Invoker : Type 0} (call : Invoker → Header → Package → List ℕ → Option (Called Invoker))
    (read : List ℕ → List ℕ × List ℕ) (ar : Archive) where
  -- What the loop over the packets starts from.
  abbrev pub starting : BasicConnection Invoker → Header → Ipackage → Served Invoker
  starting c h ip = record { sessions = c.sessions; ip = ip; op = new_package; header = h }

  -- The connection after the loop over the packets.
  pub concluded : BasicConnection Invoker → Served Invoker → BasicConnection Invoker
  concluded c v =
      let left : BasicConnection Invoker = record c {
        ipackage = ignore v.ip (in_avail v.ip);
        sessions = v.sessions;
        reading = nothing;
      } in
      listen Invoker (if ltb 0 (size v.op) then send Invoker call read ar left v.op else left)

  pub handle_read_package-served :
      (c : BasicConnection Invoker) (h : Header) (ip0 ip : Ipackage) (r : Reading) (bytes : List ℕ)
      (fuel : ℕ) (v : Served Invoker)
      → unpack_packet_sizes ar fuel (commit ip0 bytes) ≡ sizes ip
      → serve_packets Invoker call read ar (starting c h ip) ip.packet_sizes ≡ some v
      → handle_read_package Invoker call read ar fuel h
          (record c { ipackage = ip0; reading = r })
          false
          bytes
        ≡ some (concluded c v)
  unfolding handle_read_package concluded
  handle_read_package-served c h ip0 ip r bytes fuel v u served =
      rw (handle_read_package, u, served) refl

  concluded-if :
      (c : BasicConnection Invoker) (v : Served Invoker) (b : Bool)
      → ltb 0 (size v.op) ≡ b
      → concluded c v ≡ record c {
        ipackage = v.ip;
        sessions = v.sessions;
        reading = size_word;
        written = if b then c.written ++ (pack ar v.op ∷ []) else c.written;
      }
  unfolding concluded listen send ignore
  concluded-if c v true e = rw (concluded, e) refl
  concluded-if c v false e = rw (concluded, e) refl

  -- What the packets answered is sent, and nothing is sent where they answered nothing.
  pub concluded-answered :
      (c : BasicConnection Invoker) (v : Served Invoker)
      → 0 < size v.op
      → concluded c v ≡ record c {
        ipackage = v.ip;
        sessions = v.sessions;
        reading = size_word;
        written = c.written ++ (pack ar v.op ∷ []);
      }
  concluded-answered c v h = concluded-if c v true (ltb-true 0 (size v.op) h)

  pub concluded-silent :
      (c : BasicConnection Invoker) (v : Served Invoker)
      → size v.op ≡ 0
      → concluded c v ≡ record c { ipackage = v.ip; sessions = v.sessions; reading = size_word }
  concluded-silent c v h = concluded-if c v false (ltb-false 0 (size v.op) (omega (arith, h)))
