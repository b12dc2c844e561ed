-- ===== src/Idl/Serving.antt =====
-- What the server's side of a method does with a call.
use srpg.Base.{none, not, inl, inr, Bool-cases, true, refl, ℕ, false, some, ap, List, ◌++◌, ◌≡◌}
use srpg.Session.{Called}
use srpg.Package.{Package, write}
use srpg.Package.{begin_packet as begin_package_packet, end_packet as end_package_packet}
use srpg.Header.{Header, save_header, direction_response}
use srpg.Session.Calls.{write-write}
use srpg.Idl.Tuples.{Fit, load_tuple-save_tuple}
use srpg.Archive.{Archive}
use srpg.Idl.{
  Method, InterfaceInvoker, local_request, invoke_interface, save_ret, invoke_method, ret_helper,
  find_method, is_void, save_tuple,
}

-- Nothing is read for a number that no method has.
pub invoke_interface-no_method :
    {Impl : Type 0} (ar : Archive) (f : InterfaceInvoker Impl) (h : Header) (op : Package)
    (stream : List ℕ)
    → find_method Impl h.method_id f.methods ≡ none
    → invoke_interface Impl ar f h op stream
      ≡ some (record { invoker = f; header = h; op = op; stream = stream })
unfolding invoke_interface
invoke_interface-no_method ar f h op stream e = rw (invoke_interface, e) refl

module _ {Impl : Type 0} (ar : Archive) (m : Method Impl) (f : InterfaceInvoker Impl) (h : Header)
    (op : Package) (values rest : List ℕ) where
  abbrev pub result : List ℕ × Impl
  result = local_request Impl f.impl m values

  abbrev pub answer_to : Header
  answer_to = record h { dir = direction_response }

  -- The packet of the answer.
  abbrev pub answer_packet : List ℕ
  answer_packet = save_header ar answer_to ++ save_ret ar (ret_helper m.rets) result.0

  abbrev pub called : Called (InterfaceInvoker Impl)
  called = record {
    invoker = record f { impl = result.1 };
    header = answer_to;
    op = end_package_packet ar (write (begin_package_packet op) answer_packet);
    stream = rest;
  }

  -- A method that returns a value, on both sides, reads its arguments, calls the implementation as a
  -- local call does, and ends one packet with the header of the answer and the result.
  pub invoke_interface-answer :
      find_method Impl h.method_id f.methods ≡ some m
      → m.impl_void ≡ false
      → is_void (ret_helper m.rets) ≡ false
      → Fit m.args values
      → invoke_interface Impl ar f h op (save_tuple ar m.args values ++ rest) ≡ some called
  unfolding invoke_interface invoke_method local_request
  invoke_interface-answer there v r fit =
      rw
        (
          invoke_interface,
          there,
          invoke_method,
          v,
          r,
          load_tuple-save_tuple ar m.args values rest fit,
        )
        (ap (λ (q : Package). some (record called { op = end_package_packet ar q }))
          (write-write (begin_package_packet op) (save_header ar answer_to)
            (save_ret ar (ret_helper m.rets) result.0)))

  -- A method that returns none, on both sides, reads its arguments and calls the implementation, and
  -- touches neither the header nor the answer package.
  pub invoke_interface-silent :
      find_method Impl h.method_id f.methods ≡ some m
      → m.impl_void ≡ true
      → is_void (ret_helper m.rets) ≡ true
      → Fit m.args values
      → invoke_interface Impl ar f h op (save_tuple ar m.args values ++ rest)
        ≡ some
            (record { invoker = record f { impl = result.1 }; header = h; op = op; stream = rest })
  unfolding invoke_interface invoke_method local_request
  invoke_interface-silent there v r fit =
      rw
        (
          invoke_interface,
          there,
          invoke_method,
          v,
          r,
          load_tuple-save_tuple ar m.args values rest fit,
        )
        refl

  -- A method that returns a value on one side only is not called, and its arguments are not read.
  pub invoke_interface-unread :
      find_method Impl h.method_id f.methods ≡ some m
      → m.impl_void ≡ not (is_void (ret_helper m.rets))
      → invoke_interface Impl ar f h op rest
        ≡ some (record { invoker = f; header = h; op = op; stream = rest })
  unfolding invoke_interface invoke_method
  invoke_interface-unread there mixed = elim (Bool-cases (is_void (ret_helper m.rets))) [
    | inl e ↦ rw (invoke_interface, there, invoke_method, mixed, e) refl
    | inr e ↦ rw (invoke_interface, there, invoke_method, mixed, e) refl
  ]
