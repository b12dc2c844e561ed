-- ===== src/Header/Laws.antt =====
-- The round trip of a header.
use srpg.Base.{
  ℕ, ◌==◌, if◌then◌else◌, ◌<◌, ◌≡◌, some, List, ◌++◌, arith, Bool-cases, inl, append_assoc, inr,
  length, length-append,
}
use srpg.Archive.{Archive}
use srpg.Header.{save_header, load_header, Header, direction_request}
use srpg.Archive.Saved.{length-save_pos}

pub record IsHeader (h : Header) : Type 0 where
  pub dir_byte : h.dir < 256
  pub session_byte : h.session_id < 256
  pub operation_byte : h.operation_id < 256
  pub interface_byte : h.interface_id < 256
  pub method_byte : h.method_id < 256
  pub arity_byte : h.arity < 256

module _ (ar : Archive) where
  open ar use {save, load, load-save}

  load_byte : (v : ℕ) (rest : List ℕ) → v < 256 → load 8 (save 8 v ++ rest) ≡ some (v, rest)
  load_byte v rest h = load-save 8 v rest (omega arith) (omega arith) (omega arith)

  -- What is loaded back over `old`: all fields of a request, and the first three of any other.
  abbrev pub received : Header → Header → Header
  received old h =
      if h.dir == direction_request
      then h
      else record old { dir = h.dir; session_id = h.session_id; operation_id = h.operation_id }

  -- A header whose fields are bytes is loaded as it was saved: a request whole, and of any other
  -- header the direction, session and operation; the other ids keep what the target held.
  pub load_header-save_header :
      (old h : Header) (rest : List ℕ)
      → IsHeader h
      → load_header ar old (save_header ar h ++ rest) ≡ some (received old h, rest)
  unfolding load_header save_header
  load_header-save_header old h rest v = elim (Bool-cases (h.dir == direction_request)) [
    | inl q ↦ rw q (simp (append_assoc, dir, session, operation, interface, method, arity) (rw q))
    | inr q ↦ rw q (simp (append_assoc, dir, session, operation) (rw q))
  ]
    where
      dir : (r : List ℕ) → load 8 (save 8 h.dir ++ r) ≡ some (h.dir, r)
      dir r = load_byte h.dir r v.dir_byte

      session : (r : List ℕ) → load 8 (save 8 h.session_id ++ r) ≡ some (h.session_id, r)
      session r = load_byte h.session_id r v.session_byte

      operation : (r : List ℕ) → load 8 (save 8 h.operation_id ++ r) ≡ some (h.operation_id, r)
      operation r = load_byte h.operation_id r v.operation_byte

      interface : (r : List ℕ) → load 8 (save 8 h.interface_id ++ r) ≡ some (h.interface_id, r)
      interface r = load_byte h.interface_id r v.interface_byte

      method : (r : List ℕ) → load 8 (save 8 h.method_id ++ r) ≡ some (h.method_id, r)
      method r = load_byte h.method_id r v.method_byte

      arity : (r : List ℕ) → load 8 (save 8 h.arity ++ r) ≡ some (h.arity, r)
      arity r = load_byte h.arity r v.arity_byte

pub length-front_pos : (xs ys : List ℕ) → 0 < length xs → 0 < length (xs ++ ys)
length-front_pos xs ys h = omega (arith, length-append xs ys)

pub length-save_header_pos :
    (ar : Archive) (h : Header) → IsHeader h → 0 < length (save_header ar h)
unfolding save_header
length-save_header_pos ar h v =
    let first =
      length-save_pos ar 8 (omega arith) (omega arith) h.dir (omega (arith, v.dir_byte)) in
    length-front_pos _ _ (length-front_pos _ _ (length-front_pos (ar.save 8 h.dir) _ first))
