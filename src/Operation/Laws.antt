-- ===== src/Operation/Laws.antt =====
-- What is left of an operation that is saved and loaded.
use srpg.Base.{
  ℕ, none, some, [], List, Option, ◌++◌, ◌≡◌, refl, ap, ◌∙◌, ◌==◌, if◌then◌else◌, Bool, true, false,
  append-nil,
}
use srpg.Operation.{
  Operation, turn_end, move, change_facing, get_type, IntArchive, save_operation, load_operation,
  save_fields, load_fields, new_operation,
}

-- The operation with the fields that `new` gives it; a pointer for the end of a turn stays.
abbrev pub emptied : ℕ → Operation → Operation → Operation
emptied value old turn_end = old
emptied value old (move path) = move []
emptied value old (change_facing v) = change_facing value

both_empty :
    (b c : Bool) (none_saved : List ℕ)
    → (if b then none_saved else (if c then none_saved else none_saved)) ≡ none_saved
both_empty true c x = refl
both_empty false true x = refl
both_empty false false x = refl

module _ (ar : IntArchive) where
  open ar use {save_int, load_int, load_int-save_int}

  save_operation-type : (type : ℕ) (op : Operation) → save_operation ar type op ≡ save_int type
  unfolding save_operation save_fields
  save_operation-type type op =
      ap (λ (t : List ℕ). save_int type ++ t) (both_empty (type == 1) (type == 2) [])
      ∙ append-nil (save_int type)

  -- The new operation, or the old one where none was made.
  abbrev made_or : Option Operation → Operation → Operation
  made_or none old = old
  made_or (some made) old = made

  kept_or_made :
      (o : Option Operation) (old : Operation) (rest : List ℕ)
      → ◌≡◌ {A = Option (Operation × List ℕ)}
          (elim o as (λ k. Option (Operation × List ℕ)) [
            | none ↦ some (old, rest)
            | some made ↦ some (load_fields ar made rest)
          ])
          (some (made_or o old, rest))
  unfolding load_fields
  kept_or_made none old rest = refl
  kept_or_made (some made) old rest = refl

  loaded :
      (value type : ℕ) (op old : Operation) (rest : List ℕ)
      → load_operation ar value old (save_operation ar type op ++ rest)
        ≡ some (made_or (new_operation ar value type) old, rest)
  unfolding load_operation
  loaded value type op old rest =
      rw (save_operation-type type op, load_operation, load_int-save_int type rest)
        (kept_or_made (new_operation ar value type) old rest)

  -- An operation that is saved under its own type and loaded again has lost its fields: a move has
  -- no path, a change of facing has a value that nothing has set, and for the end of a turn the
  -- pointer that was there stays. What was saved tells only the type.
  pub load_operation-save_operation :
      (value : ℕ) (op old : Operation) (rest : List ℕ)
      → load_operation ar value old (save_operation ar (get_type op) op ++ rest)
        ≡ some (emptied value old op, rest)
  unfolding get_type new_operation
  load_operation-save_operation value turn_end old rest = loaded value 0 turn_end old rest
  load_operation-save_operation value (move path) old rest = loaded value 1 (move path) old rest
  load_operation-save_operation value (change_facing v) old rest =
      loaded value 2 (change_facing v) old rest
