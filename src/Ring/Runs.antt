-- ===== src/Ring/Runs.antt =====
-- A ring of eight places, and a word of the second queue.
use srpg.Base.{◌≡◌, ◌≢◌, arith}
use srpg.Ring.{SpscQueue, inc_rp, wp, rp, next_index}
use srpg.Ring.Positions.{inc_rp_moves_wp}

abbrev new_ring : SpscQueue
new_ring = record { state = 0; data_ = λ i. 0 }

new_ring_free : next_index 3 0 ≢ 0
unfolding next_index
new_ring_free e = omega (arith, e)

inc_rp_moves_wp_example :
    (wp (inc_rp 3 (record new_ring { state = 2 }) 2).1.state ≡ 3)
    × (rp (inc_rp 3 (record new_ring { state = 2 }) 2).1.state ≡ 0)
inc_rp_moves_wp_example =
    inc_rp_moves_wp 3 (record new_ring { state = 2 }) (omega arith) (λ e. omega (arith, e))
      (omega arith)
