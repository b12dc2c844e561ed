-- ===== src/Connection.antt =====
-- common/rrpc/connection.hpp: the send queue and the read loop of a TCP connection.
-- The socket is outside: a pending asynchronous operation is part of the state, and its completion
-- is a call of the handler. A packet is the bytes of its stream buffer.
pub mod Framing
pub mod Queueing
pub mod Reached
mod Runs
use srpg.Base.{
  ℕ, ltb, ◌==◌, if◌then◌else◌, length, take, drop, ◌+◌, ◌%◌, ◌^◌, bit_and, Bool, not, Option, none,
  some, List, [], ◌∷◌, ◌++◌,
}
use srpg.Archive.{Archive}
use srpg.Base.Bytes.{of_bytes, to_bytes}

-- What the socket was asked to read: four bytes into the size, or `n` bytes into the stream buffer.
pub data Reading : Type 0 where
  nothing : Reading
  size_word : Reading
  body : ℕ → Reading

pub record Connection : Type 0 where
  pub read_package_size : ℕ
  pub read_stream_buf : List ℕ
  pub reading : Reading
  pub send_package_size : ℕ
  pub send_stream_buf : List ℕ
  pub send_buffers : List (List ℕ)
  pub send_queue : List (List ℕ)
  -- The buffers of a write that has not completed.
  pub writing : Option (List (List ℕ))
  -- The `packetNum` that is bound to the completion of this write.
  pub packet_num : ℕ

abbrev pub u32 : ℕ → ℕ
u32 n = n % 2 ^ 32

-- `_listen()`
pub listen : Connection → Connection
listen c = record c { reading = size_word }

-- `_readPackageSize & 0x7fffffff`
pub body_size : ℕ → ℕ
body_size size = bit_and size 0x7fffffff

-- `_handleReadPackageSize(ec)`, with the four bytes that were read.
pub handle_read_package_size : Connection → Bool → List ℕ → Connection
unfolding listen body_size of_bytes
handle_read_package_size c ec bytes =
    let c' : Connection = record c { read_package_size = of_bytes bytes; reading = nothing } in
    let size = body_size c'.read_package_size in
    if ec
    then record c { reading = nothing }
    else (if ltb 0 size then record c' { reading = body size } else listen c')

-- `_handleReadPackage(ec)`, with the bytes that were read: `commit(size)`.
pub handle_read_package : Connection → Bool → List ℕ → Connection
unfolding listen body_size
handle_read_package c ec bytes =
    if ec
    then record c { reading = nothing }
    else listen (record c {
      read_stream_buf = c.read_stream_buf ++ take (body_size c.read_package_size) bytes;
    })

-- `isSending()`
pub is_sending : Connection → Bool
is_sending c = not (length c.send_queue == 0)

-- `for(auto& p : _sendQueue) _sendPackageSize += size`, from `size` on.
total_size : ℕ → List (List ℕ) → ℕ
total_size size [] = size
total_size size (p ∷ ps) = total_size (u32 (size + u32 (length p))) ps

-- `native_to_little(_sendPackageSize)` and `async_write`: the first buffer is the size,
-- and the completion is bound to one packet.
start_write : Connection → ℕ → List (List ℕ) → Connection
unfolding to_bytes
start_write c size buffers = record c {
  send_package_size = size;
  send_buffers = to_bytes 4 size ∷ buffers;
  writing = some (to_bytes 4 size ∷ buffers);
  packet_num = 1;
}

module _ (ar : Archive) where
  open ar use {save}

  -- `oar << _sendQueue.size()` and `oar << size` for each packet.
  pub saved_sizes : List (List ℕ) → List ℕ
  saved_sizes [] = []
  saved_sizes (p ∷ ps) = save 32 (u32 (length p)) ++ saved_sizes ps

  -- The size word of several packets: their sizes, the number of buffers, and `&= 0x80000000`.
  pub multi_size : List (List ℕ) → ℕ
  unfolding total_size
  multi_size ps = bit_and (u32 (total_size 0 ps + (length ps + 2))) 0x80000000

  post_write_queue : Connection → List (List ℕ) → Connection
  unfolding start_write saved_sizes multi_size
  post_write_queue c [] = c
  post_write_queue c (p ∷ []) = start_write c (u32 (length p)) (p ∷ [])
  post_write_queue c (p ∷ q ∷ ps) =
      let all : List (List ℕ) = p ∷ q ∷ ps in
      let sizes = save 64 (length all) ++ saved_sizes all in
      start_write (record c { send_stream_buf = sizes }) (multi_size all) (sizes ∷ all)

  -- `_postWrite()`
  pub post_write : Connection → Connection
  unfolding post_write_queue
  post_write c = post_write_queue c c.send_queue

  -- `_handleSend(ec, packetNum)`; `none` where the queue has fewer packets.
  pub handle_send : Connection → Bool → ℕ → Option Connection
  unfolding post_write
  handle_send c ec packet_num =
      let done : Connection = record c { writing = none } in
      if ec
      then some done
      else (if ltb (length c.send_queue) packet_num
          then none
          else some (post_write (record done { send_queue = drop packet_num c.send_queue })))

  -- `send(p)`
  pub send : Connection → List ℕ → Connection
  unfolding is_sending post_write
  send c p =
      let queued : Connection = record c { send_queue = c.send_queue ++ (p ∷ []) } in
      if is_sending c then queued else post_write queued

-- `run()`
pub run : Connection → Connection
unfolding listen
run c = listen c
