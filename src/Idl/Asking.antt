-- ===== src/Idl/Asking.antt =====
-- What the caller's side of a method does.
use srpg.Base.{true, ℕ, some, false, ap, ◌∙◌, List, Option, ◌≡◌, length, sym, refl, none}
use srpg.Session.{Session, request, request_void}
use srpg.Session.Calls.{Call}
use srpg.Session.Requests.{requested, request-unbatched, posted, request_void-unbatched}
use srpg.Idl.{Method, InterfaceInvoker, call_method, ret_helper, is_void, save_tuple}
use srpg.Idl.Tuples.{Fit, saved_args, flatten-saved_args, length-saved_args}
use srpg.Archive.{Archive}
use srpg.Base.Fallible.{◌>>=◌}

module _ {Impl : Type 0} (ar : Archive) (s : Session (InterfaceInvoker Impl)) (iid k : ℕ)
    (m : Method Impl) (values : List ℕ) where
  abbrev pub call_of : Call
  call_of = (iid, k, saved_args ar m.args values)

  abbrev asked : ℕ → List ℕ → Option (Option ℕ × Session (InterfaceInvoker Impl))
  asked n b = do
    (promise, s') ← request (InterfaceInvoker Impl) ar s iid k n b
    some (some promise, s')

  call_method-asked :
      is_void (ret_helper m.rets) ≡ false
      → call_method Impl ar s iid k m values ≡ asked (length m.args) (save_tuple ar m.args values)
  unfolding call_method
  call_method-asked r = rw (call_method, r) refl

  -- A call outside of a batch of a method that returns a value is a request with the bytes of its
  -- arguments.
  pub call_method-requested :
      is_void (ret_helper m.rets) ≡ false
      → Fit m.args values
      → s.enable_batch ≡ false
      → call_method Impl ar s iid k m values ≡ some (some s.next_promise, requested ar s call_of)
  call_method-requested r fit e =
      call_method-asked r
      ∙ ap (λ n. asked n (save_tuple ar m.args values))
          (sym (length-saved_args ar m.args values fit))
      ∙ ap (λ b. asked (length (saved_args ar m.args values)) b)
          (sym (flatten-saved_args ar m.args values))
      ∙ ap
          (λ o.
            ◌>>=◌ {B = Option ℕ × Session (InterfaceInvoker Impl)} o (λ t. some (some t.0, t.1)))
          (request-unbatched ar s call_of e)

  abbrev pub told : ℕ → List ℕ → Option (Option ℕ × Session (InterfaceInvoker Impl))
  told n b = do s' ← request_void (InterfaceInvoker Impl) ar s iid k n b; some (none, s')

  pub call_method-told :
      is_void (ret_helper m.rets) ≡ true
      → call_method Impl ar s iid k m values ≡ told (length m.args) (save_tuple ar m.args values)
  unfolding call_method
  call_method-told r = rw (call_method, r) refl

  -- So is a call of a method that returns none, but nothing waits for it.
  pub call_method-posted :
      is_void (ret_helper m.rets) ≡ true
      → Fit m.args values
      → s.enable_batch ≡ false
      → call_method Impl ar s iid k m values ≡ some (none, posted ar s call_of)
  call_method-posted r fit e =
      call_method-told r
      ∙ ap (λ n. told n (save_tuple ar m.args values))
          (sym (length-saved_args ar m.args values fit))
      ∙ ap (λ b. told (length (saved_args ar m.args values)) b)
          (sym (flatten-saved_args ar m.args values))
      ∙ ap
          (λ o.
            ◌>>=◌ {B = Option ℕ × Session (InterfaceInvoker Impl)} o
              (λ (t : Session (InterfaceInvoker Impl)). some (none, t)))
          (request_void-unbatched ar s call_of e)
