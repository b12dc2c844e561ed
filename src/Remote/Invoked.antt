-- ===== src/Remote/Invoked.antt =====
-- What a session does with a request for a method, and the sizes of its packets.
use srpg.Base.{
  ℕ, some, [], false, refl, ap, ◌∙◌, List, ◌<◌, Option, ◌≡◌, length, ◌++◌, arith, ◌∷◌,
  length-append, ◌^◌, flatten, ◌+◌, append-nil, true,
}
use srpg.Session.{Session, Called, find, assign, invoke}
use srpg.Header.{Header}
use srpg.Package.{Package, new_package, size}
use srpg.Package.Sizes.{write_packets, write_packets_lem, saved_sizes}
use srpg.Package.Transfer.{body_of}
use srpg.Idl.{
  Method, InterfaceInvoker, invoke_interface, save_tuple, find_method, is_void, ret_helper,
}
use srpg.Idl.Tuples.{Fit}
use srpg.Idl.Serving.{called, answer_to, invoke_interface-answer, invoke_interface-silent}
use srpg.Archive.{Archive}

pub length-body_of :
    (ar : Archive) (b : List ℕ)
    → (length (flatten (b ∷ [])) ≡ length b)
      × (length (body_of ar (b ∷ []))
          ≡ length (saved_sizes ar (b ∷ [])) + (length (ar.save 32 0) + length b))
length-body_of ar b =
    let whole = ap length (append-nil b) in
    (
      whole,
      length-append (saved_sizes ar (b ∷ [])) (ar.save 32 0 ++ (b ++ []))
          ∙ ap (λ k. length (saved_sizes ar (b ∷ [])) + k)
              (length-append (ar.save 32 0) (b ++ []) ∙ ap (λ k. length (ar.save 32 0) + k) whole),
    )

-- A package of one packet has a size above 0.
pub size-packet :
    (ar : Archive) (b : List ℕ)
    → 0 < length b
    → length (body_of ar (b ∷ [])) < 2 ^ 32
    → 0 < size (write_packets ar new_package (b ∷ []))
unfolding size new_package
size-packet ar b hb hs =
    let bs = b ∷ [] in
    let parts = length-body_of ar b in
    let (st, sz) = write_packets_lem ar new_package bs refl (omega (arith, parts)) in
    omega (arith, parts, ap length st, ap length sz)

pub size-new_package : size new_package ≡ 0
unfolding size new_package
size-new_package = refl

module _ {Impl : Type 0} (read : List ℕ → List ℕ × List ℕ) (ar : Archive) where
  abbrev call :
      InterfaceInvoker Impl → Header → Package → List ℕ → Option (Called (InterfaceInvoker Impl))
  call = invoke_interface Impl ar

  -- The session after the call: the interface has the changed implementation.
  abbrev pub after_call :
      Session (InterfaceInvoker Impl) → ℕ → InterfaceInvoker Impl → Session (InterfaceInvoker Impl)
  after_call s iid f = record s { invoke_map = assign iid f s.invoke_map }

  pub invoke-answer :
      (m : Method Impl) (f : InterfaceInvoker Impl) (s : Session (InterfaceInvoker Impl))
      (h : Header) (op : Package) (values rest : List ℕ)
      → find h.interface_id s.invoke_map ≡ some f
      → find_method Impl h.method_id f.methods ≡ some m
      → m.impl_void ≡ false
      → is_void (ret_helper m.rets) ≡ false
      → Fit m.args values
      → invoke (InterfaceInvoker Impl) call s h op (save_tuple ar m.args values ++ rest)
        ≡ some (
          after_call s h.interface_id (called ar m f h op values rest).invoker,
          answer_to ar m f h op values rest,
          (called ar m f h op values rest).op,
          rest,
        )
  unfolding invoke
  invoke-answer m f s h op values rest there found v r fit =
      rw (invoke, there, invoke_interface-answer ar m f h op values rest found v r fit) refl

  pub invoke-silent :
      (m : Method Impl) (f : InterfaceInvoker Impl) (s : Session (InterfaceInvoker Impl))
      (h : Header) (op : Package) (values rest : List ℕ)
      → find h.interface_id s.invoke_map ≡ some f
      → find_method Impl h.method_id f.methods ≡ some m
      → m.impl_void ≡ true
      → is_void (ret_helper m.rets) ≡ true
      → Fit m.args values
      → invoke (InterfaceInvoker Impl) call s h op (save_tuple ar m.args values ++ rest)
        ≡ some (after_call s h.interface_id (called ar m f h op values rest).invoker, h, op, rest)
  unfolding invoke
  invoke-silent m f s h op values rest there found v r fit =
      rw (invoke, there, invoke_interface-silent ar m f h op values rest found v r fit) refl
