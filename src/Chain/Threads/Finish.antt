-- ===== src/Chain/Threads/Finish.antt =====
-- The calls that are under way come to their end, in any order of the threads.
use srpg.Base.{
  ℕ, dec_lt, Option-cases, zero, suc, ◌+◌, ◌-◌, ◌≤◌, ◌<◌, ◌≡◌, refl, sym, ap, ◌∙◌, ◌≢◌, ◌⊎◌, inl,
  inr, true, false, List, arith, ℕ_discrete, subst, [],
}
use srpg.Chain.{Handler}
use mathlib.Core.Bool.{true≢false}
use srpg.Chain.Threads.Locking.{holds, owns, Reach-Owner}
use srpg.Chain.Threads.Progress.{left, work, total-update, Move-left, can_move}
use srpg.Chain.Threads.Once.{all_called, nothing_due}
use srpg.Chain.Threads.{
  Shared, Pc, idle, entering, tracking, testing, forcing, swapping, swapped, calling, leaving,
  System, moved, begin, move, Reach, start, later, Move,
}
use srpg.Chain.Store.{update-other}
use srpg.Chain.Threads.Kept.{forward}

-- Steps inside the calls that are under way, with their number.
pub data Runs (n : ℕ) : System → ℕ → System → Type 0 where
  done : {s : System} → Runs n s 0 s
  further :
      (i : ℕ) {s t : System} {m : Shared} {p : Pc} {k : ℕ}
      → i < n
      → Move i s.mem (s.pc i) m p
      → Runs n (moved s i m p) k t
      → Runs n s (k + 1) t

move-work :
    {n : ℕ} (s : System) (i : ℕ) {m : Shared} {p : Pc}
    → i < n
    → Move i s.mem (s.pc i) m p
    → work n (moved s i m p) < work n s
move-work {n} s i {p = p} lt mv = omega (arith, Move-left mv, total-update n s.pc i p lt)

-- However the threads take turns, the calls under way make at most as many steps as there is work.
pub Runs-work : {n k : ℕ} {s t : System} → Runs n s k t → k + work n t ≤ work n s
Runs-work done = omega arith
Runs-work {s = s} (further i lt mv rest) = omega (arith, Runs-work rest, move-work s i lt mv)

above_idle :
    {n required : ℕ} {hs : List Handler} {s : System} (j : ℕ)
    → Reach n required hs s
    → n ≤ j
    → s.pc j ≡ idle
above_idle j start h = refl
above_idle j (later {s = s} rest (begin i {p} lt st)) h =
    update-other s.pc i p j (omega (arith, h, lt)) ∙ above_idle j rest h
above_idle j (later {s = s} rest (move i {p = p} lt mv)) h =
    update-other s.pc i p j (omega (arith, h, lt)) ∙ above_idle j rest h

busy_below :
    {n required : ℕ} {hs : List Handler} {s : System} (j : ℕ)
    → Reach n required hs s
    → holds (s.pc j) ≡ true
    → j < n
busy_below {n} j reach h = elim (dec_lt j n) [
  | yes lt ↦ lt
  | no above ↦
      let out : false ≡ true = ap holds (sym (above_idle j reach (omega (arith, above)))) ∙ h in
      absurd cc
]

-- In any state that is reached, while a thread is in a call, some thread has a step to take in the
-- call that it is in: the threads never wait for each other for ever.
pub no_deadlock :
    {n required : ℕ} {hs : List Handler} {s : System} (i : ℕ)
    → Reach n required hs s
    → i < n
    → s.pc i ≢ idle
    → (j : ℕ) × (m : Shared) × (p : Pc) × (j < n) × Move j s.mem (s.pc j) m p
no_deadlock {s = s} i reach lt busy = elim (Option-cases s.mem.mutex) [
  | inl free ↦ let (m, p, mv) = can_move i s.mem (s.pc i) busy (inr free) in (i, m, p, lt, mv)
  | inr (k, mine) ↦
      let inside : holds (s.pc k) ≡ true =
        Reach-Owner reach k ∙ ap (λ o. owns o k) mine ∙ ground arith in
      let (m, p, mv) =
        can_move k s.mem (s.pc k) (λ e. true≢false (sym inside ∙ ap holds e)) (inl inside) in
      (k, m, p, busy_below k reach inside, mv)
]

idle-left : (p : Pc) → left p ≡ 0 → p ≡ idle
idle-left idle h = refl
idle-left entering h = absurd (omega (arith, h))
idle-left tracking h = absurd (omega (arith, h))
idle-left testing h = absurd (omega (arith, h))
idle-left forcing h = absurd (omega (arith, h))
idle-left swapping h = absurd (omega (arith, h))
idle-left (swapped hs) h = absurd (omega (arith, h))
idle-left (calling hs) h = absurd (omega (arith, h))
idle-left leaving h = absurd (omega (arith, h))

busy_or_idle :
    (n : ℕ) (pc : ℕ → Pc) → ((i : ℕ) × (i < n) × (pc i ≢ idle)) ⊎ ((i : ℕ) → i < n → pc i ≡ idle)
busy_or_idle zero pc = inr (λ i h. absurd (omega (arith, h)))
busy_or_idle (suc n) pc = elim (dec_lt 0 (left (pc n))) [
  | yes busy ↦ inl (n, omega arith, λ e. omega (arith, busy, ap left e))
  | no calm ↦ elim (busy_or_idle n pc) [
    | inl (i, lt, busy) ↦ inl (i, omega (arith, lt), busy)
    | inr idle_below ↦ inr (λ i h. elim (ℕ_discrete i n) [
      | yes e ↦ subst (λ k. pc k ≡ idle) (sym e) (idle-left (pc n) (omega (arith, calm)))
      | no ne ↦ idle_below i (omega (arith, h, ne))
    ])
  ]
]

-- Steps to a state in which every thread is outside.
pub record Finished (n required : ℕ) (hs : List Handler) (s : System) : Type 0 where
  pub steps : ℕ
  pub final : System
  pub runs : Runs n s steps final
  pub reached : Reach n required hs final
  pub quiet : (i : ℕ) → final.pc i ≡ idle
  pub tracked_on : s.mem.tracked ≤ final.mem.tracked
  pub forced_on : s.mem.forced ≤ final.mem.forced

Finished-before :
    {n required : ℕ} {hs : List Handler} (s : System) (i : ℕ) {m : Shared} {p : Pc}
    → i < n
    → Move i s.mem (s.pc i) m p
    → Finished n required hs (moved s i m p)
    → Finished n required hs s
Finished-before s i lt mv f = record {
  steps = f.steps + 1;
  final = f.final;
  runs = further i lt mv f.runs;
  reached = f.reached;
  quiet = f.quiet;
  tracked_on = omega (arith, (forward mv).0, f.tracked_on);
  forced_on = omega (arith, (forward mv).1, f.forced_on);
}

Finished-now :
    {n required : ℕ} {hs : List Handler} (s : System)
    → Reach n required hs s
    → ((i : ℕ) → i < n → s.pc i ≡ idle)
    → Finished n required hs s
Finished-now {n} s reach calm = record {
  steps = 0;
  final = s;
  runs = done;
  reached = reach;
  quiet = λ i. elim (dec_lt i n) [
    | yes lt ↦ calm i lt
    | no above ↦ above_idle i reach (omega (arith, above))
  ];
  tracked_on = omega arith;
  forced_on = omega arith;
}

finish :
    {n required : ℕ} {hs : List Handler} (f : ℕ) (s : System)
    → Reach n required hs s
    → work n s ≤ f
    → Finished n required hs s
finish {n} zero s reach h = elim (busy_or_idle n s.pc) [
  | inr calm ↦ Finished-now s reach calm
  | inl (i, lt, busy) ↦
      let (j, m, p, below, mv) = no_deadlock i reach lt busy in
      absurd (omega (arith, h, move-work s j below mv))
]
finish {n} (suc f) s reach h = elim (busy_or_idle n s.pc) [
  | inr calm ↦ Finished-now s reach calm
  | inl (i, lt, busy) ↦
      let (j, m, p, below, mv) = no_deadlock i reach lt busy in
      Finished-before s j below mv (
        finish f (moved s j m p) (later reach (move j below mv))
          (omega (arith, h, move-work s j below mv)))
]

-- From any state that is reached, however the threads take turns inside the calls that they are in,
-- they make at most as many steps as there is work. There are such steps after which every thread is
-- outside. Then either each of the handlers was called, in their order and once, and none is deferred
-- any more; or none was called and all are deferred, and this only when, in the first state and in
-- the last, `run()` was not called and `complete` had updated `_required` fewer times than it was at
-- the start, or not at all.
pub calls_finish :
    {n required : ℕ} {hs : List Handler} (s : System)
    → Reach n required hs s
    → ((k : ℕ) (t : System) → Runs n s k t → k ≤ work n s)
      × (k : ℕ) × (t : System) × Runs n s k t
      × ((i : ℕ) → t.pc i ≡ idle)
      × (((t.mem.called ≡ hs) × (t.mem.deferred_handlers ≡ []))
          ⊎ ((t.mem.called ≡ [])
              × (t.mem.deferred_handlers ≡ hs)
              × (s.mem.forced + (s.mem.tracked - (required - 1)) ≡ 0)
              × (t.mem.forced + (t.mem.tracked - (required - 1)) ≡ 0)))
calls_finish {n} {required} s reach =
    let f = finish (work n s) s reach (omega arith) in
    (
      λ k t runs. omega (arith, Runs-work runs),
      f.steps,
      f.final,
      f.runs,
      f.quiet,
      elim (dec_lt 0 (f.final.mem.forced + (f.final.mem.tracked - (required - 1)))) [
        | yes due ↦ inl (all_called f.reached due f.quiet)
        | no early ↦ inr (
            let (none_called, all_there) = nothing_due f.reached (omega (arith, early)) in
            (
              none_called,
              all_there,
              omega (arith, early, f.tracked_on, f.forced_on),
              omega (arith, early),
            ))
      ],
    )
