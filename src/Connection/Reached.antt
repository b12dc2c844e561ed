-- ===== src/Connection/Reached.antt =====
-- The states that a connection reaches while no write fails.
use srpg.Base.{
  ℕ, ◌≡◌, refl, sym, ap, subst, Bool, true, false, none, some, List, [], ◌∷◌, ◌++◌, arith, ◌∙◌,
  append_assoc,
}
use srpg.Archive.{Archive}
use srpg.Connection.{
  Connection, send, handle_send, handle_read_package_size, handle_read_package, run, listen,
}
use srpg.Connection.Queueing.{InStep, quiet, busy, send-InStep, handle_send-InStep}
use mathlib.Core.Option.{some-injective}

module _ (ar : Archive) where
  -- `Reached sent done c`: `c` is reached from a connection that was just made, the packets of
  -- `sent` having been given to `send` in their order, and the writes of `done` having completed.
  pub data Reached : List (List ℕ) → List (List ℕ) → Connection → Type 0 where
    made : (c : Connection) → c.send_queue ≡ [] → c.writing ≡ none → Reached [] [] c
    sends :
        (sent done : List (List ℕ)) (c : Connection) (p : List ℕ)
        → Reached sent done c
        → Reached (sent ++ (p ∷ [])) done (send ar c p)
    completes :
        (sent done : List (List ℕ)) (c d : Connection) (p : List ℕ) (ps : List (List ℕ))
        → Reached sent done c
        → c.send_queue ≡ p ∷ ps
        → handle_send ar c false c.packet_num ≡ some d
        → Reached sent (done ++ (p ∷ [])) d
    runs :
        (sent done : List (List ℕ)) (c : Connection)
        → Reached sent done c
        → Reached sent done (run c)
    reads_size :
        (sent done : List (List ℕ)) (c : Connection) (ec : Bool) (bytes : List ℕ)
        → Reached sent done c
        → Reached sent done (handle_read_package_size c ec bytes)
    reads_body :
        (sent done : List (List ℕ)) (c : Connection) (ec : Bool) (bytes : List ℕ)
        → Reached sent done c
        → Reached sent done (handle_read_package c ec bytes)

  -- The packets that were not completed are those in the queue, and the writes are in step.
  abbrev pub Kept : List (List ℕ) → List (List ℕ) → Connection → Type 0
  Kept sent done c = InStep c × (sent ≡ done ++ c.send_queue)

  Kept-same :
      (sent done : List (List ℕ)) (c d : Connection)
      → d.send_queue ≡ c.send_queue
      → d.writing ≡ c.writing
      → d.packet_num ≡ c.packet_num
      → Kept sent done c
      → Kept sent done d
  Kept-same sent done c d q w k (quiet e n, l) =
      (quiet (q ∙ e) (w ∙ n), l ∙ ap (λ (t : List (List ℕ)). done ++ t) (sym q))
  Kept-same sent done c d q w k (busy p ps buffers e n one, l) = (
    busy p ps buffers (q ∙ e) (w ∙ n) (k ∙ one),
    l ∙ ap (λ (t : List (List ℕ)). done ++ t) (sym q),
  )

  size-untouched :
      (c : Connection) (ec : Bool) (bytes : List ℕ)
      → ((handle_read_package_size c ec bytes).send_queue ≡ c.send_queue)
        × ((handle_read_package_size c ec bytes).writing ≡ c.writing)
        × ((handle_read_package_size c ec bytes).packet_num ≡ c.packet_num)
  unfolding handle_read_package_size listen
  size-untouched c true bytes = (refl, refl, refl)
  size-untouched c false bytes = (ground arith, ground arith, ground arith)

  body-untouched :
      (c : Connection) (ec : Bool) (bytes : List ℕ)
      → ((handle_read_package c ec bytes).send_queue ≡ c.send_queue)
        × ((handle_read_package c ec bytes).writing ≡ c.writing)
        × ((handle_read_package c ec bytes).packet_num ≡ c.packet_num)
  unfolding handle_read_package listen
  body-untouched c true bytes = (refl, refl, refl)
  body-untouched c false bytes = (refl, refl, refl)

  run-untouched :
      (c : Connection)
      → ((run c).send_queue ≡ c.send_queue)
        × ((run c).writing ≡ c.writing)
        × ((run c).packet_num ≡ c.packet_num)
  unfolding run listen
  run-untouched c = (refl, refl, refl)

  Kept-completes :
      (sent done : List (List ℕ)) (c d : Connection) (p : List ℕ) (ps : List (List ℕ))
      → c.send_queue ≡ p ∷ ps
      → handle_send ar c false c.packet_num ≡ some d
      → Kept sent done c
      → Kept sent (done ++ (p ∷ [])) d
  Kept-completes sent done c d p ps q h (quiet e n, l) = cc
  Kept-completes sent done c d p ps q h (busy _ _ _ _ _ one, l) =
      let (d', h', i', q') = handle_send-InStep ar c p ps q in
      subst (λ x. Kept sent (done ++ (p ∷ [])) x)
        (some-injective d' d (sym h' ∙ ap (handle_send ar c false) (sym one) ∙ h))
        (
          i',
          l
              ∙ ap (λ (t : List (List ℕ)). done ++ t) q
              ∙ sym (append_assoc done (p ∷ []) ps)
              ∙ ap (λ (t : List (List ℕ)). (done ++ (p ∷ [])) ++ t) (sym q'),
        )

  Kept-sends :
      (sent done : List (List ℕ)) (c : Connection) (p : List ℕ)
      → Kept sent done c
      → Kept (sent ++ (p ∷ [])) done (send ar c p)
  Kept-sends sent done c p (i, l) =
      let (i', q') = send-InStep ar c p i in
      (
        i',
        ap (λ (t : List (List ℕ)). t ++ (p ∷ [])) l
            ∙ append_assoc done c.send_queue (p ∷ [])
            ∙ ap (λ (t : List (List ℕ)). done ++ t) (sym q'),
      )

  -- While no write fails, a connection has a write outstanding exactly while packets are queued, its
  -- completion is bound to one packet, and the packets given to `send` are those whose writes have
  -- completed, followed by those in the queue, in their order: none is lost, doubled or overtaken in
  -- the queue.
  pub Reached-InStep :
      (sent done : List (List ℕ)) (c : Connection)
      → Reached sent done c
      → InStep c × (sent ≡ done ++ c.send_queue)
  Reached-InStep sent done c (made _ q w) = (quiet q w, sym q)
  Reached-InStep sent done c (sends s d o p r) = Kept-sends s d o p (Reached-InStep s d o r)
  Reached-InStep sent done c (completes s d o _ p ps r q h) =
      Kept-completes s d o c p ps q h (Reached-InStep s d o r)
  Reached-InStep sent done c (runs s d o r) =
      let (q, w, k) = run-untouched o in Kept-same s d o (run o) q w k (Reached-InStep s d o r)
  Reached-InStep sent done c (reads_size s d o ec bytes r) =
      let (q, w, k) = size-untouched o ec bytes in
      Kept-same s d o (handle_read_package_size o ec bytes) q w k (Reached-InStep s d o r)
  Reached-InStep sent done c (reads_body s d o ec bytes r) =
      let (q, w, k) = body-untouched o ec bytes in
      Kept-same s d o (handle_read_package o ec bytes) q w k (Reached-InStep s d o r)
