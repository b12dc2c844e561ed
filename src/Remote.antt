-- ===== src/Remote.antt =====
-- Two connections of common/rrpc/old/connection.hpp with sessions and interfaces on them, and the
-- wire between: a package that one side sends reaches the other whole.
pub mod Delivery
pub mod Invoked
pub mod Answer
pub mod Reply
pub mod Call
pub mod Silent
pub mod Unread
pub mod Batch
pub mod InOrder
mod Runs
mod SilentRuns
use srpg.Base.{ℕ, none, some, [], List, Option, false, take, drop}
use srpg.Session.{Called}
use srpg.Dispatch.{BasicConnection, handle_read_package_size, handle_read_package}
use srpg.Idl.{load_ret, ret_helper}
use srpg.Header.{Header}
use srpg.Archive.{Archive}
use srpg.Package.{Package}

-- The two reads of a package: its size, and the rest.
abbrev pub deliver :
    {Invoker : Type 0}
    → (Invoker → Header → Package → List ℕ → Option (Called Invoker))
    → (List ℕ → List ℕ × List ℕ)
    → Archive
    → ℕ
    → Header
    → BasicConnection Invoker
    → List ℕ
    → Option (BasicConnection Invoker)
deliver {Invoker = Invoker} call read ar fuel h c wire =
    handle_read_package Invoker call read ar fuel h
      (handle_read_package_size Invoker c false (take 4 wire)) false (drop 4 wire)

-- What a promise for results of these types reads; a fault of the archive leaves the stream.
pub read_result : Archive → List ℕ → List ℕ → List ℕ × List ℕ
read_result ar rets stream = elim (load_ret ar (ret_helper rets) stream) [
  | none ↦ ([], stream)
  | some r ↦ r
]
