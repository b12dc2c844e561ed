-- ===== src/Connection/Queueing.antt =====
-- The send queue: what is outstanding, what a failure leaves behind, and what is sent twice.
use srpg.Base.{
  zero, suc, ℕ, ◌≡◌, refl, false, none, some, List, [], ◌∷◌, ◌++◌, arith, ◌∙◌, Option, length, true,
  ap, suc, sym, append-nil, append_assoc,
}
use srpg.Archive.{Archive}
use srpg.Connection.{Connection, post_write, send, handle_send, u32, multi_size, saved_sizes}
use srpg.Base.Bytes.{to_bytes}
use srpg.Base.Fallible.{◌>>=◌}

-- A write is outstanding exactly while packets are queued, and its completion is for one packet.
pub data InStep (c : Connection) : Type 0 where
  quiet : c.send_queue ≡ [] → c.writing ≡ none → InStep c
  busy :
      (p : List ℕ) (ps : List (List ℕ)) (buffers : List (List ℕ))
      → c.send_queue ≡ p ∷ ps
      → c.writing ≡ some buffers
      → c.packet_num ≡ 1
      → InStep c

module _ (ar : Archive) where
  -- The buffers that stand before the packets in a frame.
  frame_front : List ℕ → List (List ℕ) → List (List ℕ)
  frame_front p [] = to_bytes 4 (u32 (length p)) ∷ []
  frame_front p (q ∷ ps) =
      let all : List (List ℕ) = p ∷ q ∷ ps in
      to_bytes 4 (multi_size ar all) ∷ (ar.save 64 (length all) ++ saved_sizes ar all) ∷ []

  writing-post_write :
      (c : Connection) (p : List ℕ) (ps : List (List ℕ))
      → c.send_queue ≡ p ∷ ps
      → ((post_write ar c).writing ≡ some (frame_front p ps ++ (p ∷ ps)))
        × ((post_write ar c).send_queue ≡ p ∷ ps)
        × ((post_write ar c).packet_num ≡ 1)
  unfolding post_write frame_front
  writing-post_write c p [] e = (ground (arith, e), ground (arith, e), ground (arith, e))
  writing-post_write c p (q ∷ ps) e = (ground (arith, e), ground (arith, e), ground (arith, e))

  post_write-InStep :
      (c : Connection) (ps : List (List ℕ))
      → c.send_queue ≡ ps
      → c.writing ≡ none
      → InStep (post_write ar c) × ((post_write ar c).send_queue ≡ ps)
  post_write-InStep c [] e w =
      unfold post_write in (quiet (ground (arith, e)) (ground (arith, e, w)), ground (arith, e))
  post_write-InStep c (p ∷ ps) e w =
      let (b, q, one) = writing-post_write c p ps e in
      (busy p ps (frame_front p ps ++ (p ∷ ps)) q b one, q)

  send_quiet :
      (c : Connection) (p : List ℕ)
      → c.send_queue ≡ []
      → send ar c p ≡ post_write ar (record c { send_queue = p ∷ [] })
  unfolding send
  send_quiet c p e = ground (arith, e)

  send_busy :
      (c : Connection) (p q : List ℕ) (qs : List (List ℕ))
      → c.send_queue ≡ q ∷ qs
      → send ar c p ≡ record c { send_queue = q ∷ (qs ++ (p ∷ [])) }
  unfolding send
  send_busy c p q qs e = ground (arith, e)

  -- `send` appends the packet to the queue, and keeps a write outstanding exactly while packets are
  -- queued.
  pub send-InStep :
      (c : Connection) (p : List ℕ)
      → InStep c
      → InStep (send ar c p) × ((send ar c p).send_queue ≡ c.send_queue ++ (p ∷ []))
  send-InStep c p (quiet e w) =
      let (i, q) = post_write-InStep (record c { send_queue = p ∷ [] }) (p ∷ []) refl w in
      rw (send_quiet c p e) (i, q ∙ ap (λ (t : List (List ℕ)). t ++ (p ∷ [])) (sym e))
  send-InStep c p (busy q qs buffers e w one) = rw (send_busy c p q qs e) (
    busy q (qs ++ (p ∷ [])) buffers refl w one,
    ap (λ (t : List (List ℕ)). t ++ (p ∷ [])) (sym e),
  )

  -- A write that completes takes one packet off the queue, and the next write starts at once while
  -- any packet is left.
  pub handle_send-InStep :
      (c : Connection) (p : List ℕ) (ps : List (List ℕ))
      → c.send_queue ≡ p ∷ ps
      → (d : Connection) × (handle_send ar c false 1 ≡ some d) × InStep d × (d.send_queue ≡ ps)
  unfolding handle_send
  handle_send-InStep c p ps e =
      let c' : Connection = record c { send_queue = ps; writing = none } in
      let (i, q) = post_write-InStep c' ps refl refl in (post_write ar c', ground (arith, e), i, q)

  -- `n` writes complete, one after the other. Only a write that is outstanding completes, and its
  -- handler gets the number of packets that was bound to it.
  pub complete : ℕ → Connection → Option Connection
  complete zero c = some c
  complete (suc n) c = do buffers ← c.writing; d ← handle_send ar c false c.packet_num; complete n d

  complete-step :
      (n : ℕ) (c d : Connection) (buffers : List (List ℕ))
      → c.writing ≡ some buffers
      → c.packet_num ≡ 1
      → handle_send ar c false 1 ≡ some d
      → complete (suc n) c ≡ complete n d
  unfolding complete
  complete-step n c d buffers w one e =
      ap
        (λ o.
          ◌>>=◌ {B = Connection} o
            (λ b. ◌>>=◌ {B = Connection} (handle_send ar c false c.packet_num) (λ t. complete n t)))
        w
      ∙ ap (λ k. ◌>>=◌ {B = Connection} (handle_send ar c false k) (λ t. complete n t)) one
      ∙ ap (λ o. ◌>>=◌ {B = Connection} o (λ t. complete n t)) e

  complete_lem :
      (ps : List (List ℕ)) (c : Connection)
      → InStep c
      → c.send_queue ≡ ps
      → (d : Connection) × (complete (length ps) c ≡ some d)
        × (d.send_queue ≡ [])
        × (d.writing ≡ none)
  unfolding complete
  complete_lem [] c (quiet e w) h = (c, refl, e, w)
  complete_lem [] c (busy p ps b e w one) h = cc
  complete_lem (p ∷ ps) c (quiet e w) h = cc
  complete_lem (p ∷ ps) c (busy _ _ buffers _ w one) h =
      let (d, e, i', q) = handle_send-InStep c p ps h in
      let (d', e', q', w') = complete_lem ps d i' q in
      (d', complete-step (length ps) c d buffers w one e ∙ e', q', w')

  -- While writes succeed the queue is worked off. Where a write is outstanding exactly while packets
  -- are queued, as many writes complete as packets are queued, each of them outstanding when its turn
  -- comes, with the number of packets that was bound to it; then no packet and no write is left.
  pub queue_drains :
      (c : Connection)
      → InStep c
      → (d : Connection) × (complete (length c.send_queue) c ≡ some d)
        × (d.send_queue ≡ [])
        × (d.writing ≡ none)
  queue_drains c i = complete_lem c.send_queue c i refl

  pub send_all : Connection → List (List ℕ) → Connection
  send_all c [] = c
  send_all c (p ∷ ps) = send_all (send ar c p) ps

  stuck_queue :
      (ps : List (List ℕ)) (c : Connection) (q : List ℕ) (qs : List (List ℕ))
      → c.send_queue ≡ q ∷ qs
      → c.writing ≡ none
      → ((send_all c ps).writing ≡ none) × ((send_all c ps).send_queue ≡ q ∷ (qs ++ ps))
  unfolding send_all
  stuck_queue [] c q qs e w = (w, e ∙ ap (◌∷◌ q) (sym (append-nil qs)))
  stuck_queue (p ∷ ps) c q qs e w =
      let (w', e') =
        stuck_queue ps (record c { send_queue = q ∷ (qs ++ (p ∷ [])) }) q (qs ++ (p ∷ [])) refl w in
      rw (send_all, send_busy c p q qs e) (w', e' ∙ ap (◌∷◌ q) (append_assoc qs (p ∷ []) ps))

  -- After a write that failed, with packets queued as they then are, no later `send` ever writes
  -- again: every packet is only added to the queue.
  pub failed_write_blocks :
      (c : Connection) (q : List ℕ) (qs ps : List (List ℕ)) (packet_num : ℕ)
      → c.send_queue ≡ q ∷ qs
      → (d : Connection) × (handle_send ar c true packet_num ≡ some d)
        × ((send_all d ps).writing ≡ none)
        × ((send_all d ps).send_queue ≡ q ∷ (qs ++ ps))
  unfolding handle_send
  failed_write_blocks c q qs ps packet_num e =
      let d : Connection = record c { writing = none } in
      let (w, s) = stuck_queue ps d q qs e refl in (d, refl, w, s)

  -- Packets queued behind two others go out in at least two frames: they end the frame that is
  -- written when the first packet is done, and again the frame after it.
  pub packets_sent_twice :
      (c : Connection) (p q r : List ℕ) (rest : List (List ℕ))
      → c.send_queue ≡ p ∷ q ∷ r ∷ rest
      → (d e : Connection) × (front again : List (List ℕ)) × (handle_send ar c false 1 ≡ some d)
        × (d.writing ≡ some (front ++ (r ∷ rest)))
        × (handle_send ar d false d.packet_num ≡ some e)
        × (e.writing ≡ some (again ++ (r ∷ rest)))
  unfolding handle_send
  packets_sent_twice c p q r rest h =
      let c' : Connection = record c { send_queue = q ∷ r ∷ rest; writing = none } in
      let d = post_write ar c' in
      let (wd, qd, one) = writing-post_write c' q (r ∷ rest) refl in
      let d' : Connection = record d { send_queue = r ∷ rest; writing = none } in
      let (we, qe, _) = writing-post_write d' r rest refl in
      (
        d,
        post_write ar d',
        frame_front q (r ∷ rest) ++ (q ∷ []),
        frame_front r rest,
        ground (arith, h),
        wd ∙ ap some (sym (append_assoc (frame_front q (r ∷ rest)) (q ∷ []) (r ∷ rest))),
        ground (arith, qd, one),
        we,
      )
