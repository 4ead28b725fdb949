-- ===== src/Storage/Operation.antt =====
-- The types of include/storage/transaction.h that are more than declared.
use custom_database.Prelude.{ℕ, Bytes}

pub data TransactionState : Type 0 where
  active committed aborted : TransactionState

pub data OperationType : Type 0 where
  get put delete scan : OperationType

pub record TransactionOperation : Type 0 where
  pub type : OperationType
  pub key : Bytes
  pub value : Bytes
  pub timestamp : ℕ

-- `TransactionOperation(t, k, v)`.
abbrev pub new_operation : OperationType → Bytes → Bytes → TransactionOperation
new_operation t k v = record { type = t; key = k; value = v; timestamp = 0 }
