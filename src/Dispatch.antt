-- ===== src/Dispatch.antt =====
-- common/rrpc/old/connection.hpp: the read loop of a connection, which hands each packet of a package to the
-- session that its header names, and sends what the calls answered.
-- The socket is outside: its completions are calls of the handlers.
pub mod Loop
pub mod Reads
mod Runs
use srpg.Base.{
  ◌+◌, ℕ, [], List, ◌++◌, ◌∷◌, Bool, length, get_elem?, Option, if◌then◌else◌, ◌%◌, some, ltb, ◌^◌,
  none, ◌==◌, ◌-◌, set,
}
use srpg.Base.Fallible.{◌>>=◌}
use srpg.Session.{Session, invoke, response, new_session, Called}
use srpg.Package.{
  consume, Package, Ipackage, Unpacked, sizes, fault, running, in_avail, ignore, read_header,
  unpack_packet_sizes, commit, unpack_package_size, pack, consume, new_package, size,
}
use srpg.Header.{Header, direction_request, direction_response}
use srpg.Archive.{Archive}

-- What the socket was asked to read.
pub data Reading : Type 0 where
  nothing : Reading
  size_word : Reading
  body : ℕ → Reading

-- `_handleSend(ec, p)`: the package is emptied, whether the write failed or not.
pub handle_send : Bool → Package → Package
handle_send ec p = consume p

-- `bytes_left = packetSize - (packet_in_avail - ip.in_avail())`, in the arithmetic of `uint32_t`: the
-- bit pattern of the `int`, which is negative from 2^31 on.
unfoldable pub bytes_left : ℕ → ℕ → ℕ → ℕ
bytes_left packet_size packet_in_avail in_avail =
    (packet_size + 2 ^ 32 - (packet_in_avail + 2 ^ 32 - in_avail) % 2 ^ 32) % 2 ^ 32

module _ (Invoker : Type 0) where
  pub record BasicConnection : Type 0 where
    pub ipackage : Ipackage
    pub sessions : List (Session Invoker)
    pub reading : Reading
    -- The packages of the writes that were started.
    pub written : List Package

  -- `_listen()`
  pub listen : BasicConnection → BasicConnection
  listen c = record c { reading = size_word }

  -- `run()`
  pub run : BasicConnection → BasicConnection
  unfolding listen
  run c = listen c

  -- `_handleReadPackageSize(ec)`, with the four bytes that were read.
  pub handle_read_package_size : BasicConnection → Bool → List ℕ → BasicConnection
  unfolding listen unpack_package_size
  handle_read_package_size c ec bytes =
      let ip = unpack_package_size c.ipackage bytes in
      let c' : BasicConnection = record c { ipackage = ip; reading = nothing } in
      if ec
      then record c { reading = nothing }
      else (if ltb 0 ip.package_size
          then record c' { reading = body ip.package_size }
          else listen c')

  -- `make_session()`
  pub make_session : BasicConnection → BasicConnection
  unfolding new_session
  make_session c = record c {
    sessions = c.sessions ++ (new_session Invoker (length c.sessions % 2 ^ 8) ∷ []);
  }

  -- What the packets of a package have done: the sessions, the stream, the answer package, and the
  -- last header that was read.
  pub record Served : Type 0 where
    pub sessions : List (Session Invoker)
    pub ip : Ipackage
    pub op : Package
    pub header : Header

  module _ (call : Invoker → Header → Package → List ℕ → Option (Called Invoker))
      (read : List ℕ → List ℕ × List ℕ) where
    -- The switch on `h.dir`, for the session of `h.sessionId`; `none` on a fault.
    pub dispatch : Served → Option Served
    unfolding invoke response
    dispatch v = elim (get_elem? v.sessions v.header.session_id) [
      | none ↦ some v
      | some s ↦
          if v.header.dir == direction_request
          then (do
            (s', h, op, stream) ← invoke Invoker call s v.header v.op v.ip.stream_buf
            some (record v {
              sessions = set v.sessions v.header.session_id s';
              ip = record v.ip { stream_buf = stream };
              op = op;
              header = h;
            }))
          else (if v.header.dir == direction_response
              then (let done = response Invoker read s v.header v.ip.stream_buf in
                  some (record v {
                    sessions = set v.sessions v.header.session_id done.0;
                    ip = record v.ip { stream_buf = done.1 };
                  }))
              else some v)
    ]

    module _ (ar : Archive) where
      -- `for(auto packetSize : packetSizeList)`; `none` on a fault of the archive.
      pub serve_packets : Served → List ℕ → Option Served
      unfolding dispatch in_avail ignore read_header bytes_left
      serve_packets v [] = some v
      serve_packets v (packet_size ∷ ps) =
          let packet_in_avail = in_avail v.ip in
          let rest : Served → Option Served = λ v'.
            let left = bytes_left packet_size packet_in_avail (in_avail v'.ip) in
            let ignored : Served = record v' { ip = ignore v'.ip left } in
            let same = serve_packets v' ps in
            let less = serve_packets ignored ps in
            if left == 0 then same else (if ltb left (2 ^ 31) then less else some v') in
          if ltb packet_in_avail packet_size then some v else (do
            (h, ip) ← read_header ar v.ip v.header
            v' ← dispatch (record v { ip = ip; header = h })
            rest v')

      -- `send(package)`
      pub send : BasicConnection → Package → BasicConnection
      unfolding pack
      send c p = record c { written = c.written ++ (pack ar p ∷ []) }

      -- `_handleReadPackage(ec)`, with the bytes that were read, a header whose bytes are any, and
      -- rounds of the size loop; `none` on a fault, or where the size loop does not end.
      pub handle_read_package :
          ℕ → Header → BasicConnection → Bool → List ℕ → Option BasicConnection
      unfolding commit unpack_packet_sizes serve_packets ignore in_avail new_package size send
          listen
      handle_read_package fuel h c ec bytes =
          let stopped : BasicConnection = record c { reading = nothing } in
          if ec
          then some stopped
          else elim (unpack_packet_sizes ar fuel (commit c.ipackage bytes)) [
            | fault ↦ none
            | running ↦ none
            | sizes ip ↦ do
              let start : Served = record {
                sessions = c.sessions;
                ip = ip;
                op = new_package;
                header = h;
              }
              v ← serve_packets start ip.packet_sizes
              let left = ignore v.ip (in_avail v.ip)
              let served : BasicConnection = record stopped {
                ipackage = left;
                sessions = v.sessions;
              }
              some (listen (if ltb 0 (size v.op) then send served v.op else served))
          ]
