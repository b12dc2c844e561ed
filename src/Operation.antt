-- ===== src/Operation.antt =====
-- src/logic/operation.h: the operations of a player, and how an archive saves and loads them.
-- The archive is a parameter: what it saves for an `int` and loads again. A variable that is not
-- set holds a value that is a parameter too.
pub mod Laws
mod Runs
use srpg.Base.{ℕ, none, some, [], List, Option, ◌∷◌, ◌++◌, ◌==◌, if◌then◌else◌, ◌≡◌}
use srpg.Base.Fallible.{◌>>=◌}

-- `operation` and the classes that are derived from it.
pub data Operation : Type 0 where
  turn_end : Operation
  move : (path : List ℕ) → Operation
  change_facing : (value : ℕ) → Operation

-- `Type::op_turn_end`, `op_move` and `op_change_facing`.
pub get_type : Operation → ℕ
get_type turn_end = 0
get_type (move path) = 1
get_type (change_facing value) = 2

-- `ar & v` for an `int`, on an archive that saves and on one that loads.
pub record IntArchive : Type 0 where
  pub save_int : ℕ → List ℕ
  pub load_int : List ℕ → Option (ℕ × List ℕ)
  pub load_int-save_int : (v : ℕ) (rest : List ℕ) → load_int (save_int v ++ rest) ≡ some (v, rest)

module _ (ar : IntArchive) where
  open ar use {save_int, load_int}

  -- `serialize` of `RR_DEFINE_SERIALIZABLE_FIELDS`: the fields are declared again in its body, and
  -- nothing of them is saved or loaded.
  pub save_fields : Operation → List ℕ
  save_fields op = []

  pub load_fields : Operation → List ℕ → Operation × List ℕ
  load_fields op stream = (op, stream)

  -- `serialize(ar, op)` on an archive that saves: `type` is not set from the operation.
  pub save_operation : ℕ → Operation → List ℕ
  unfolding save_fields
  save_operation type op =
      save_int type
      ++ (if type == 1 then save_fields op else (if type == 2 then save_fields op else []))

  -- `new T()`, whose `value` is not set.
  pub new_operation : ℕ → ℕ → Option Operation
  new_operation value type =
      if type == 1 then some (move []) else (if type == 2 then some (change_facing value) else none)

  -- `serialize(ar, op)` on an archive that loads, from the pointer `op`; `none` on a fault.
  pub load_operation : ℕ → Operation → List ℕ → Option (Operation × List ℕ)
  unfolding load_fields new_operation
  load_operation value op stream = do
    (type, stream) ← load_int stream
    elim (new_operation value type) [
      | none ↦ some (op, stream)
      | some made ↦ some (load_fields made stream)
    ]
