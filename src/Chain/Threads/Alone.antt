-- ===== src/Chain/Threads/Alone.antt =====
-- A call of `complete` that no other thread disturbs is the `complete` of the world of chains.
use srpg.Base.{
  ℕ, dec_lt, ◌+◌, ◌-◌, ◌<◌, ◌≡◌, refl, sym, ◌∙◌, ◌≢◌, none, some, List, [], ◌∷◌, ◌++◌, map,
  append-nil, append_assoc, subst, arith, ap,
}
use srpg.Chain.{Handler, World, ChainImpl, impl_complete}
use srpg.Chain.Store.{update-same, update-other, complete-waits, complete-fires, run-posts, tracked}
use srpg.Chain.Threads.{
  Shared, Pc, idle, testing, swapping, calling, System, moved, Step, begin, move, Start, complete,
  Move, lock_complete, track, return_early, satisfied, swap, unlock, call, relock, leave,
}

pub data Steps (n : ℕ) (s : System) : System → Type 0 where
  none_yet : Steps n s s
  and_then : {t u : System} → Steps n s t → Step n t u → Steps n s u

-- Thread `i` alone went from `s` to where it stands at `p`, with the shared part at `m`.
pub record Walk (n i : ℕ) (s : System) (m : Shared) (p : Pc) : Type 0 where
  pub there : System
  pub steps : Steps n s there
  pub mem_there : there.mem ≡ m
  pub pc_there : there.pc i ≡ p
  pub others : (j : ℕ) → j ≢ i → there.pc j ≡ s.pc j

module _ {n i : ℕ} {s : System} (lt : i < n) where
  Walk-move :
      {m m' : Shared} {p : Pc} (p' : Pc) → Walk n i s m p → Move i m p m' p' → Walk n i s m' p'
  Walk-move {m} {m'} {p} p' w mv =
      let mv' : Move i w.there.mem (w.there.pc i) m' p' =
        subst (λ x. Move i x (w.there.pc i) m' p') (sym w.mem_there)
          (subst (λ q. Move i m q m' p') (sym w.pc_there) mv) in
      record {
        there = moved w.there i m' p';
        steps = and_then w.steps (move i lt mv');
        mem_there = refl;
        pc_there = update-same w.there.pc i p';
        others = λ j ne. update-other w.there.pc i p' j ne ∙ w.others j ne;
      }

  Walk-begin : {p : Pc} → s.pc i ≡ idle → Start idle p → Walk n i s s.mem p
  Walk-begin {p} out st = record {
    there = moved s i s.mem p;
    steps = and_then none_yet (begin i lt (subst (λ q. Start q p) (sym out) st));
    mem_there = refl;
    pc_there = update-same s.pc i p;
    others = λ j ne. update-other s.pc i p j ne;
  }

  -- The loop over the handlers.
  Walk-calls :
      (m : Shared) (hs : List Handler)
      → Walk n i s m (calling hs)
      → Walk n i s (record m { called = m.called ++ hs }) (calling [])
  Walk-calls m [] w =
      subst (λ l. Walk n i s (record m { called = l }) (calling [])) (sym (append-nil m.called)) w
  Walk-calls m (h ∷ hs) w =
      subst (λ l. Walk n i s (record m { called = l }) (calling []))
        (append_assoc m.called (h ∷ []) hs)
        (Walk-calls (record m { called = m.called ++ (h ∷ []) }) hs (Walk-move _ w call))

  -- `run(guard)` and the end of the call.
  Walk-run :
      (m : Shared)
      → Walk n i s m swapping
      → Walk n i s
          (record m {
            deferred_handlers = [];
            called = m.called ++ m.deferred_handlers;
            mutex = none;
          })
          idle
  Walk-run m w =
      Walk-move _
        (Walk-move _ (Walk-calls _ m.deferred_handlers (Walk-move _ (Walk-move _ w swap) unlock))
          (relock refl))
        leave

  Walk-track :
      s.pc i ≡ idle
      → s.mem.mutex ≡ none
      → Walk n i s
          (record s.mem {
            required = s.mem.required - 1;
            tracked = s.mem.tracked + 1;
            mutex = some i;
          })
          testing
  Walk-track out free =
      Walk-move _ (Walk-move _ (Walk-begin out complete) (lock_complete free)) track

  -- A thread that is outside calls `complete` while the mutex is free, and the others wait: it comes
  -- out again with the mutex free, and `_required`, the deferred handlers and the handlers that were
  -- called are those that `complete` leaves, and posts, in the world of chains.
  pub complete_alone :
      (w : World) (k ios : ℕ)
      → s.pc i ≡ idle
      → s.mem.mutex ≡ none
      → w.executors (w.impls k).executor_ref ≡ some ios
      → (w.impls k).required ≡ s.mem.required
      → (w.impls k).deferred_handlers ≡ s.mem.deferred_handlers
      → (m : Shared) × Walk n i s m idle
        × (m.mutex ≡ none)
        × (((impl_complete w k).impls k).required ≡ m.required)
        × (((impl_complete w k).impls k).deferred_handlers ≡ m.deferred_handlers)
        × (new : List Handler) × (m.called ≡ s.mem.called ++ new)
        × ((impl_complete w k).posted ≡ w.posted ++ map (λ h. (ios, h)) new)
  complete_alone w k ios out free e r d =
      let mine =
        update-same w.impls k (record (w.impls k) { required = (w.impls k).required - 1 }) in
      elim (dec_lt 1 s.mem.required) [
        | yes more ↦
            let waits = complete-waits w k (omega (arith, r, more)) in
            (
              _,
              Walk-move _ (Walk-move _ (Walk-track out free) (return_early (omega (arith, more))))
                  leave,
              refl,
              ap (λ u. (u.impls k).required) waits
                  ∙ ap (λ (c : ChainImpl). c.required) mine
                  ∙ ap (λ x. x - 1) r,
              ap (λ u. (u.impls k).deferred_handlers) waits
                  ∙ ap (λ (c : ChainImpl). c.deferred_handlers) mine
                  ∙ d,
              [],
              sym (append-nil s.mem.called),
              ap (λ u. u.posted) waits ∙ sym (append-nil w.posted),
            )
        | no last ↦
            let there : (tracked w k).executors ((tracked w k).impls k).executor_ref ≡ some ios =
              ap (λ (c : ChainImpl). w.executors c.executor_ref) mine ∙ e in
            let fires =
              complete-fires w k (omega (arith, r, last)) ∙ run-posts (tracked w k) k ios there in
            let kept =
              update-same (tracked w k).impls k
                (record ((tracked w k).impls k) { deferred_handlers = [] }) in
            (
              _,
              Walk-run _ (Walk-move _ (Walk-track out free) (satisfied (omega (arith, last)))),
              refl,
              ap (λ u. (u.impls k).required) fires
                  ∙ ap (λ (c : ChainImpl). c.required)
                      (kept ∙ ap (λ (c : ChainImpl). record c { deferred_handlers = [] }) mine)
                  ∙ ap (λ x. x - 1) r,
              ap (λ u. (u.impls k).deferred_handlers) fires
                  ∙ ap (λ (c : ChainImpl). c.deferred_handlers) kept,
              s.mem.deferred_handlers,
              refl,
              ap (λ u. u.posted) fires
                  ∙ ap (λ (c : ChainImpl). w.posted ++ map (λ h. (ios, h)) c.deferred_handlers) mine
                  ∙ ap (λ (hs : List Handler). w.posted ++ map (λ h. (ios, h)) hs) d,
            )
      ]
