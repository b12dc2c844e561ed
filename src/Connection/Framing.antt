-- ===== src/Connection/Framing.antt =====
-- One frame from the sender to the receiver.
use srpg.Base.{
  ℕ, length, take, take_all, ◌+◌, ◌*◌, ◌/◌, ◌%◌, ◌^◌, ◌<◌, bit_and, ◌≡◌, refl, ◌∙◌, false, some,
  List, [], ◌∷◌, ◌++◌, arith,
}
use srpg.Archive.{Archive}
use srpg.Connection.{
  Connection, body_size, send, multi_size, post_write, handle_read_package_size,
  handle_read_package, size_word, body, total_size, saved_sizes,
}
use srpg.Base.Bytes.{of_bytes, to_bytes, of_bytes-to_bytes}
use srpg.Base.Bits.{bit_and-mask, bit_and-two_pow}

body_size-mod : (n : ℕ) → body_size n ≡ n % 2 ^ 31
unfolding body_size
body_size-mod n = bit_and-mask 31 n

-- A packet sent while nothing is queued goes out at once as one frame, and a receiver that is given
-- the frame's size word and then its body asks for as many bytes, appends the packet to its stream
-- buffer, and listens for the next size word. The packet is not empty and below 2 ^ 31 bytes.
pub send_single_frame :
    (ar : Archive) (c r : Connection) (p : List ℕ)
    → c.send_queue ≡ []
    → 0 < length p
    → length p < 2 ^ 31
    → let size = to_bytes 4 (length p) in
      let sized = handle_read_package_size r false size in
      let done = handle_read_package sized false p in
      ((send ar c p).writing ≡ some (size ∷ p ∷ []))
      × (sized.reading ≡ body (length p))
      × (done.read_stream_buf ≡ r.read_stream_buf ++ p)
      × (done.reading ≡ size_word)
unfolding send handle_read_package_size handle_read_package
send_single_frame ar c r p e h hn =
    let n : of_bytes (to_bytes 4 (length p)) ≡ length p =
      of_bytes-to_bytes 4 (length p) (omega arith) in
    let b : body_size (length p) ≡ length p = body_size-mod (length p) ∙ omega arith in
    let all : take (length p) p ≡ p = take_all (length p) p (omega arith) in
    let wrap : length p % 2 ^ 32 ≡ length p = omega arith in
    (ground (arith, e, wrap), ground (arith, n, b), ground (arith, n, b, all), ground (arith, n, b))

multi_size_word :
    (ar : Archive) (ps : List (List ℕ)) → body_size (of_bytes (to_bytes 4 (multi_size ar ps))) ≡ 0
unfolding multi_size
multi_size_word ar ps =
    let x = (total_size 0 ps + (length ps + 2)) % 2 ^ 32 in
    let word : bit_and x 0x80000000 ≡ x / 2 ^ 31 % 2 * 2 ^ 31 = bit_and-two_pow 31 x in
    rw (of_bytes-to_bytes 4 (bit_and x 0x80000000) (omega arith)) (body_size-mod _ ∙ omega arith)

-- The size word of a frame of two packets or more has no size left in it: a receiver that is given
-- the word takes nothing of the frame's body for a body, and listens for a size word there.
pub multi_frame_skipped :
    (ar : Archive) (c r : Connection) (p q : List ℕ) (ps : List (List ℕ))
    → c.send_queue ≡ p ∷ q ∷ ps
    → (word : List ℕ) × (sizes : List ℕ) × ((post_write ar c).writing
        ≡ some (word ∷ sizes ∷ p ∷ q ∷ ps))
      × ((handle_read_package_size r false word).reading ≡ size_word)
      × ((handle_read_package_size r false word).read_stream_buf ≡ r.read_stream_buf)
unfolding post_write handle_read_package_size
multi_frame_skipped ar c r p q ps e =
    let z = multi_size_word ar (p ∷ q ∷ ps) in
    (
      to_bytes 4 (multi_size ar (p ∷ q ∷ ps)),
      ar.save 64 (length (p ∷ q ∷ ps)) ++ saved_sizes ar (p ∷ q ∷ ps),
      rw e refl,
      ground (arith, z),
      ground (arith, z),
    )
