-- ===== src/Server/OverlapReach.antt =====
-- Requests that are processed at once, and the order in which they take effect.
use custom_database.Prelude.{◌≡◌, List}
use custom_database.Wal.Record.{WalRecord}
use custom_database.Protocol.Message.{Message}
use custom_database.Server.Spec.{Store}
use custom_database.Server.Refinement.{view, IsServing}
use custom_database.Server.Served.{Served, IsArranged}
use custom_database.Server.Overlap.{Task, waiting, Overlap}
use custom_database.Server.OverlapStand.{IsSmall, Stands}

-- The requests have taken effect in this order, with these responses, as on a map that held `store`;
-- a thread that has a response, or has only its commit left, has the one of its place in the order,
-- and the others have no place yet.
pub record IsLinear (store : Store) (s : Overlap) (order : List Served) : Type 0 where
  pub rs : List WalRecord
  pub serving : IsServing s.database rs
  pub arranged : IsArranged Stands store order (view s.database) s.tasks

-- A thread that has not begun.
abbrev pub IsWaiting : Task → Type 0
IsWaiting t = (m : Message) × IsSmall m × (t ≡ waiting m)
