-- ===== src/Device/Laws.antt =====
-- Reading what was written, and what a write past the end leaves.
use srpg.Base.{
  ℕ, ap, refl, List, ◌<◌, length, [], ◌≡◌, Bool, ◌++◌, if◌then◌else◌, ltb-true, some, none, ltb,
  ◌==◌, ◌+◌, false, min, ◌∙◌, arith, ◌-◌, Option, take, drop, drop_all, append-nil,
}
use srpg.Device.{ContainerDevice, read, write, overwrite, make_container_device}
use srpg.Base.Lists.{length-append, take-append, take_all}
use srpg.Device.{overwrite, make_container_device}

eqb_false : (a b : ℕ) → b < a → (a == b) ≡ false
eqb_false a b h = ground arith

write-empty :
    (s : List ℕ)
    → 0 < length s
    → (write (make_container_device []) s).1 ≡ record { container = s; position = length s }
unfolding write overwrite make_container_device
write-empty s h =
    ap
      (λ (b : Bool).
        if b then record { container = s; position = length s } else make_container_device [])
      (ltb-true 0 (length s) h)

read-some :
    (s : List ℕ)
    → 0 < length s
    → read (record { container = s; position = 0 }) (length s)
      ≡ (some s, record { container = s; position = length s })
unfolding read
read-some s h =
    let d : ContainerDevice = record { container = s; position = 0 } in
    let n : min (length s) (length s - 0) ≡ length s = omega arith in
    let out : ℕ → Bool → Option (List ℕ) × ContainerDevice =
      λ r b. if b then (none, d) else (some (take r s), record d { position = 0 + r }) in
    ap (λ (r : ℕ). out r (r == 0)) n
    ∙ ap (out (length s)) (eqb_false (length s) 0 (omega arith))
    ∙ ap (λ (xs : List ℕ). (some xs, record d { position = 0 + length s }))
        (take_all (length s) s (omega arith))
    ∙ ap (λ (p : ℕ). (some s, record d { position = p })) (omega arith)

read-end : (s : List ℕ) → (read (record { container = s; position = length s }) (length s)).0 ≡ none
unfolding read
read-end s =
    let d : ContainerDevice = record { container = s; position = length s } in
    let n : min (length s) (length s - length s) ≡ 0 = omega arith in
    let out : ℕ → Option (List ℕ) × ContainerDevice = λ r.
      if r == 0
      then (none, d)
      else (some (take r (drop (length s) s)), record d { position = length s + r }) in
    ap (λ (r : ℕ). (out r).0) n

overwrite_lem :
    (a b s t : List ℕ)
    → length s ≡ length b
    → 0 < length s
    → overwrite (record { container = a ++ b; position = length a }) (s ++ t)
      ≡ (length s, record { container = a ++ s; position = length a + length s })
unfolding overwrite
overwrite_lem a b s t e hs =
    let n : min (length (s ++ t)) (length (a ++ b) - length a) ≡ length s =
      omega (arith, e, length-append a b, length-append s t) in
    let out : ℕ → ℕ × ContainerDevice = λ r. (
      r,
      record {
        container = take (length a) (a ++ b) ++ (take r (s ++ t) ++ drop (length a + r) (a ++ b));
        position = length a + r;
      },
    ) in
    let gone : drop (length a + length s) (a ++ b) ≡ [] =
      drop_all (length a + length s) (a ++ b) (omega (arith, e, length-append a b)) in
    ap
      (λ (b' : Bool).
        if b'
        then out (min (length (s ++ t)) (length (a ++ b) - length a))
        else (0, record { container = a ++ b; position = length a }))
      (ltb-true (length a) (length (a ++ b)) (omega (arith, e, length-append a b)))
    ∙ ap out n
    ∙ rw (take-append a b, take-append s t, gone, append-nil s) refl

-- Characters written to an empty container are read back from its start, and then the end is read.
pub read-write :
    (s : List ℕ)
    → 0 < length s
    → let written = (write (make_container_device []) s).1 in
      let first = read (record written { position = 0 }) (length s) in
      (written.position ≡ length s) × (first.0 ≡ some s) × ((read first.1 (length s)).0 ≡ none)
unfolding read write overwrite make_container_device
read-write s h =
    let w = write-empty s h in
    let first =
      ap (λ (d : ContainerDevice). read (record d { position = 0 }) (length s)) w ∙ read-some s h in
    (
      ap (λ (d : ContainerDevice). d.position) w,
      ap (λ r. r.0) first,
      ap (λ r. (read r.1 (length s)).0) first ∙ read-end s,
    )

-- A write that runs over the end of the container keeps all of its characters, the ones that fitted
-- over old characters included, a second time at the end.
pub write-past_end :
    (a b s t : List ℕ)
    → length s ≡ length b
    → 0 < length s
    → 0 < length t
    → write (record { container = a ++ b; position = length a }) (s ++ t) ≡ (
      length (s ++ t),
      record { container = (a ++ s) ++ (s ++ t); position = length ((a ++ s) ++ (s ++ t)) },
    )
unfolding write overwrite
write-past_end a b s t e hs ht =
    let next : ℕ × ContainerDevice → Bool → ℕ × ContainerDevice = λ o b'. (
      length (s ++ t),
      if b'
          then record {
            container = o.1.container ++ (s ++ t);
            position = length (o.1.container ++ (s ++ t));
          }
          else o.1,
    ) in
    ap (λ o. next o (ltb o.0 (length (s ++ t)))) (overwrite_lem a b s t e hs)
    ∙ ap (next (length s, record { container = a ++ s; position = length a + length s }))
        (ltb-true (length s) (length (s ++ t)) (omega (arith, length-append s t)))
