-- ===== src/Transaction.antt =====
-- sidecar/src/backup/transaction.rs: the transactions of a backup. The two mutexes are free whenever
-- `try_lock` asks for them, except in `rollback`, whose own guards are dropped before.
pub mod Rollback
use obsidian_backup_server.Prelude.{
  ℕ, Option, none, some, List, [], ◌∷◌, ◌++◌, Bytes, Result, ok, err, ◌>>=◌,
}
use obsidian_backup_server.Index.{RocksDb, decrement_ref}

pub data TransactionState : Type 0 where
  pending active committing committed aborted rolling_back : TransactionState

pub record Transaction : Type 0 where
  pub tx_id : Bytes
  pub state : TransactionState
  pub created_at : Bytes
  pub completed_at : Option Bytes
  pub files_processed : ℕ
  pub bytes_processed : ℕ
  pub chunks_total : ℕ

pub record TransientObject : Type 0 where
  pub chunk_hash : Bytes
  pub object_path : Bytes

module _ (rocks : RocksDb) where
  -- The manager, with the index that it shares.
  pub record TransactionManager : Type 0 where
    pub block_index : rocks.Db
    pub transient_objects : List TransientObject

  -- `begin`, at the time `now`
  unfoldable pub begin : Bytes → Bytes → TransactionManager → Transaction × TransactionManager
  begin now tx_id m = (
    record {
      tx_id = tx_id;
      state = TransactionState.active;
      created_at = now;
      completed_at = none;
      files_processed = 0;
      bytes_processed = 0;
      chunks_total = 0;
    },
    record m { transient_objects = [] },
  )

  unfoldable pub track_object : Bytes → Bytes → TransactionManager → TransactionManager
  track_object h path m = record m {
    transient_objects = m.transient_objects ++ record { chunk_hash = h; object_path = path } ∷ [];
  }

  -- An error of the flush leaves the manager as it is.
  unfoldable pub commit : Transaction → TransactionManager → Result TransactionManager
  commit tx m = rocks.flush_wal m.block_index >>= λ db.
      ok (record { block_index = db; transient_objects = [] })

  -- the loop of `rollback`; an error is logged, and the next object is taken
  unfoldable pub release : List TransientObject → rocks.Db → rocks.Db
  release [] db = db
  release (o ∷ os) db = elim (decrement_ref rocks db o.chunk_hash) [
    | err e ↦ release os db
    | ok r ↦ release os r.1
  ]

  unfoldable pub rollback : Transaction → TransactionManager → TransactionManager
  rollback tx m = record {
    block_index = release m.transient_objects m.block_index;
    transient_objects = [];
  }
