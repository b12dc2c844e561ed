-- ===== src/Connection/Runs.antt =====
-- A connection at concrete packets, with the archive of the codec.
use srpg.Base.{ℕ, ◌≡◌, refl, true, false, none, some, List, [], ◌∷◌, ◌++◌, arith}
use srpg.Archive.Trivial.{trivial_archive, save_unsigned}
use srpg.Connection.{
  Connection, size_word, post_write, handle_read_package_size, handle_send, send,
  handle_read_package, body,
}
use srpg.Connection.Queueing.{
  InStep, complete, busy, queue_drains, send_all, packets_sent_twice, failed_write_blocks,
}
use srpg.Base.Bytes.{to_bytes}
use srpg.Connection.{is_sending}
use srpg.Connection.Reached.{Reached, Reached-InStep, made, sends, completes}
use srpg.Connection.Framing.{multi_frame_skipped, send_single_frame}

abbrev connected : Connection
connected = record {
  read_package_size = 0;
  read_stream_buf = 7 ∷ [];
  reading = size_word;
  send_package_size = 0;
  send_stream_buf = [];
  send_buffers = [];
  send_queue = [];
  writing = none;
  packet_num = 0;
}

abbrev three_queued : Connection
three_queued = record connected {
  send_queue = (1 ∷ []) ∷ (2 ∷ []) ∷ (3 ∷ []) ∷ [];
  writing = some ([] ∷ []);
  packet_num = 1;
}

three_queued-InStep : InStep three_queued
three_queued-InStep = busy (1 ∷ []) ((2 ∷ []) ∷ (3 ∷ []) ∷ []) ([] ∷ []) refl refl refl

-- Two packets of one byte: the size word is zero.
two_packet_frame :
    (post_write trivial_archive
      (record connected { send_queue = (2 ∷ []) ∷ (3 ∷ []) ∷ [] })).writing
    ≡ some ((0 ∷ 0 ∷ 0 ∷ 0 ∷ []) ∷ (2 ∷ 1 ∷ 1 ∷ []) ∷ (2 ∷ []) ∷ (3 ∷ []) ∷ [])
unfolding post_write save_unsigned
two_packet_frame = refl

send_single_frame_example :
    let sized = handle_read_package_size connected false (to_bytes 4 2) in
    let done = handle_read_package sized false (5 ∷ 6 ∷ []) in
    ((send trivial_archive connected (5 ∷ 6 ∷ [])).writing
      ≡ some (to_bytes 4 2 ∷ (5 ∷ 6 ∷ []) ∷ []))
    × (sized.reading ≡ body 2)
    × (done.read_stream_buf ≡ 7 ∷ 5 ∷ 6 ∷ [])
    × (done.reading ≡ size_word)
send_single_frame_example =
    send_single_frame trivial_archive connected connected (5 ∷ 6 ∷ []) refl (omega arith)
      (omega arith)

multi_frame_skipped_example :
    (word : List ℕ) × (sizes : List ℕ) × ((post_write trivial_archive three_queued).writing
      ≡ some (word ∷ sizes ∷ (1 ∷ []) ∷ (2 ∷ []) ∷ (3 ∷ []) ∷ []))
    × ((handle_read_package_size connected false word).reading ≡ size_word)
    × ((handle_read_package_size connected false word).read_stream_buf ≡ 7 ∷ [])
multi_frame_skipped_example =
    multi_frame_skipped trivial_archive three_queued connected (1 ∷ []) (2 ∷ []) ((3 ∷ []) ∷ [])
      refl

queue_drains_example :
    (d : Connection) × (complete trivial_archive 3 three_queued ≡ some d)
    × (d.send_queue ≡ [])
    × (d.writing ≡ none)
queue_drains_example = queue_drains trivial_archive three_queued three_queued-InStep

failed_write_blocks_example :
    (d : Connection) × (handle_send trivial_archive three_queued true 1 ≡ some d)
    × ((send_all trivial_archive d ((4 ∷ []) ∷ [])).writing ≡ none)
    × ((send_all trivial_archive d ((4 ∷ []) ∷ [])).send_queue
        ≡ (1 ∷ []) ∷ (2 ∷ []) ∷ (3 ∷ []) ∷ (4 ∷ []) ∷ [])
failed_write_blocks_example =
    failed_write_blocks trivial_archive three_queued (1 ∷ []) ((2 ∷ []) ∷ (3 ∷ []) ∷ [])
      ((4 ∷ []) ∷ []) 1 refl

packets_sent_twice_example :
    (d e : Connection) × (front again : List (List ℕ)) × (handle_send trivial_archive three_queued
        false 1
      ≡ some d)
    × (d.writing ≡ some (front ++ ((3 ∷ []) ∷ [])))
    × (handle_send trivial_archive d false d.packet_num ≡ some e)
    × (e.writing ≡ some (again ++ ((3 ∷ []) ∷ [])))
packets_sent_twice_example =
    packets_sent_twice trivial_archive three_queued (1 ∷ []) (2 ∷ []) (3 ∷ []) [] refl

-- Two packets are sent, the first write completes, and a third packet is sent.
abbrev one_completed : Connection
one_completed =
    record (post_write trivial_archive
      (record (send trivial_archive (send trivial_archive connected (5 ∷ [])) (6 ∷ [])) {
        send_queue = (6 ∷ []) ∷ [];
        writing = none;
      })) { reading = size_word }

one_completed-Reached :
    Reached trivial_archive ((5 ∷ []) ∷ (6 ∷ []) ∷ []) ((5 ∷ []) ∷ []) one_completed
unfolding send post_write handle_send is_sending
one_completed-Reached =
    completes ((5 ∷ []) ∷ (6 ∷ []) ∷ []) [] _ one_completed (5 ∷ []) ((6 ∷ []) ∷ [])
      (sends ((5 ∷ []) ∷ []) [] _ (6 ∷ [])
        (sends [] [] connected (5 ∷ []) (made connected refl refl)))
      refl refl

Reached-InStep_example :
    InStep (send trivial_archive one_completed (7 ∷ []))
    × ((5 ∷ []) ∷ (6 ∷ []) ∷ (7 ∷ []) ∷ []
        ≡ (5 ∷ []) ∷ (send trivial_archive one_completed (7 ∷ [])).send_queue)
Reached-InStep_example =
    Reached-InStep trivial_archive ((5 ∷ []) ∷ (6 ∷ []) ∷ (7 ∷ []) ∷ []) ((5 ∷ []) ∷ [])
      (send trivial_archive one_completed (7 ∷ []))
      (sends ((5 ∷ []) ∷ (6 ∷ []) ∷ []) ((5 ∷ []) ∷ []) one_completed (7 ∷ [])
        one_completed-Reached)
