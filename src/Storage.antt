-- ===== src/Storage.antt =====
-- The inline parts of include/storage/btree.h and include/storage/transaction.h.
pub mod BTree
pub mod BTreeLaws
pub mod Operation
