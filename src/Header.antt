-- ===== src/Header.antt =====
-- common/rrpc/old/header.hpp: the header of a packet.
pub mod Laws
use srpg.Base.{ℕ, ◌==◌, if◌then◌else◌, not, Option, List, [], ◌++◌, some}
use srpg.Archive.{Archive}
use srpg.Base.Fallible.{◌>>=◌}

-- `direction`, an enum over `uint8_t`; a header from the network may hold any byte there.
abbrev pub direction_request : ℕ
direction_request = 1

abbrev pub direction_response : ℕ
direction_response = 2

-- The ids and the arity are `uint8_t`.
pub record Header : Type 0 where
  pub dir : ℕ
  pub session_id : ℕ
  pub operation_id : ℕ
  pub interface_id : ℕ
  pub method_id : ℕ
  pub arity : ℕ

module _ (ar : Archive) where
  open ar use {save, load}

  -- `serialize` on an output archive.
  unfoldable pub save_header : Header → List ℕ
  save_header h =
      let ids =
        if h.dir == direction_request
        then save 8 h.interface_id ++ save 8 h.method_id ++ save 8 h.arity
        else [] in
      save 8 h.dir ++ save 8 h.session_id ++ save 8 h.operation_id ++ ids

  load_ids : Header → List ℕ → Option (Header × List ℕ)
  load_ids h s = do
    (i, s) ← load 8 s
    (m, s) ← load 8 s
    (a, s) ← load 8 s
    some (record h { interface_id = i; method_id = m; arity = a }, s)

  -- `serialize` on an input archive: it fills in `h`, which keeps what is not read.
  unfoldable pub load_header : Header → List ℕ → Option (Header × List ℕ)
  unfolding load_ids
  load_header h s = do
    (d, s) ← load 8 s
    (n, s) ← load 8 s
    (o, s) ← load 8 s
    let h' : Header = record h { dir = d; session_id = n; operation_id = o }
    if d == direction_request then load_ids h' s else some (h', s)
