-- ===== src/Remote/Delivery.antt =====
-- A package of one packet, from the wire to the end of the loop over its packets.
use srpg.Base.{
  map, flatten, All, ℕ, some, [], false, ap, List, Option, length, ◌<◌, ◌∷◌, ◌++◌, ◌^◌, ◌≡◌, take,
  drop, ◌∙◌,
}
use srpg.Session.{Called}
use srpg.Header.{Header}
use srpg.Package.{Package, Ipackage, unpack_package_size}
use srpg.Package.Transfer.{packed, body_of, wire_of, received_package, unpack-pack}
use srpg.Dispatch.{BasicConnection, Served, handle_read_package, serve_packets}
use srpg.Dispatch.Reads.{
  starting, concluded, handle_read_package-served, handle_read_package_size-ipackage,
}
use srpg.Archive.{Archive}
use srpg.Remote.{deliver}

module _ {Invoker : Type 0} (call : Invoker → Header → Package → List ℕ → Option (Called Invoker))
    (read : List ℕ → List ℕ × List ℕ) (ar : Archive) where
  -- The received package with the packet `b` alone, its size list read.
  abbrev pub one_packet : Ipackage → List ℕ → Ipackage
  one_packet ip b = record ip {
    package_size = length (body_of ar (b ∷ []));
    packet_sizes = length b ∷ [];
    stream_buf = b ++ [];
  }

  -- The same with the packets `bs`.
  abbrev pub with_packets : Ipackage → List (List ℕ) → Ipackage
  with_packets ip bs = record ip {
    package_size = length (body_of ar bs);
    packet_sizes = map length bs;
    stream_buf = flatten bs;
  }

  -- Packets that are sent together are served one after the other, and the connection then goes on.
  pub deliver-all_packed :
      (c : BasicConnection Invoker) (h : Header) (bs : List (List ℕ)) (fuel : ℕ)
      (v : Served Invoker)
      → All (λ b. 0 < length b) bs
      → length (body_of ar bs) < 2 ^ 32
      → c.ipackage.stream_buf ≡ []
      → length bs < fuel
      → serve_packets Invoker call read ar
          (starting call read ar c h (with_packets c.ipackage bs))
          (map length bs)
        ≡ some v
      → deliver call read ar fuel h c (wire_of (packed ar bs)) ≡ some (concluded call read ar c v)
  unfolding received_package
  deliver-all_packed c h bs fuel v hb hs e hf served =
      let wire = wire_of (packed ar bs) in
      let (r, sized) = handle_read_package_size-ipackage c (take 4 wire) in
      let unpacked = unpack-pack ar bs fuel c.ipackage hb hs e hf in
      ap
        (λ (u : BasicConnection Invoker).
          handle_read_package Invoker call read ar fuel h u false (drop 4 wire))
        sized
      ∙ handle_read_package-served call read ar c h (unpack_package_size c.ipackage (take 4 wire))
          (with_packets c.ipackage bs) r (drop 4 wire) fuel v unpacked served

  pub deliver-packed :
      (c : BasicConnection Invoker) (h : Header) (b : List ℕ) (fuel : ℕ) (v : Served Invoker)
      → 0 < length b
      → length (body_of ar (b ∷ [])) < 2 ^ 32
      → c.ipackage.stream_buf ≡ []
      → 1 < fuel
      → serve_packets Invoker call read ar
          (starting call read ar c h (one_packet c.ipackage b))
          (length b ∷ [])
        ≡ some v
      → deliver call read ar fuel h c (wire_of (packed ar (b ∷ [])))
        ≡ some (concluded call read ar c v)
  deliver-packed c h b fuel v hb hs e hf served =
      deliver-all_packed c h (b ∷ []) fuel v (hb, tt) hs e hf served
