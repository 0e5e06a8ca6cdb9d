-- ===== src/Storage/Memdb/Tests.antt =====
-- An empty database, a transaction on it, and two tables.
use boxd.Prelude.{◌≡◌, refl, false, ◌&&◌, some, List, [], ◌∷◌, bytes_equal, if◌then◌else◌}
use boxd.Prelude.Assoc.{find}
use boxd.Prelude.Result.{ok, err}
use boxd.Storage.Memdb.{
  Bytes, bytes_key, transaction_closed, blocks, Bop, op_put, op_del, Memorydb, start_batch,
  table_prefix, realkey, put, flush, table_put, table_get, Mtx, new_transaction, tx_put, commit,
  discard,
}
use boxd.Storage.Memdb.Writes.{last_value, tx_run, commit-tx_run, discard-tx_run}
use boxd.Storage.Memdb.Tables.{table_get-table_put, flush-flush}

abbrev empty_db : Memorydb
empty_db = record { db = []; enable_batch = false; batch = []; write_lock = false }

-- A key that is put and deleted, and one that is put.
abbrev some_ops : List Bop
some_ops = op_put (1 ∷ []) (7 ∷ []) ∷ op_put (2 ∷ []) (8 ∷ []) ∷ op_del (1 ∷ []) ∷ []

commit-tx_run_example :
    (tx done closed : Mtx) × (held after : Memorydb) × (new_transaction [] empty_db ≡ ok (tx, held))
    × ((p k v : Bytes) → table_put p k v held ≡ err blocks)
    × (tx_run some_ops tx ≡ ok done)
    × (commit done held ≡ ok (closed, after))
    × (after.write_lock ≡ false)
    × ((key : Bytes)
        → find bytes_key after.db key ≡ last_value [] some_ops key (find bytes_key empty_db.db key))
    × ((k v : Bytes) → tx_put k v closed ≡ err transaction_closed)
commit-tx_run_example = commit-tx_run [] some_ops empty_db refl

discard-tx_run_example :
    (tx done : Mtx) × (held : Memorydb) × (new_transaction [] empty_db ≡ ok (tx, held))
    × (tx_run some_ops tx ≡ ok done)
    × ((discard done held).1.db ≡ empty_db.db)
    × ((discard done held).1.write_lock ≡ false)
discard-tx_run_example = discard-tx_run [] some_ops empty_db refl

-- The tables "a" and "b".
abbrev a_name : Bytes
a_name = 0x61 ∷ []

abbrev b_name : Bytes
b_name = 0x62 ∷ []

table_get-table_put_example :
    (next : Memorydb) × (table_put (table_prefix a_name) (1 ∷ []) (7 ∷ []) empty_db ≡ ok next)
    × (table_get (table_prefix b_name) (1 ∷ []) next ≡ (
        if bytes_equal a_name b_name && bytes_equal (1 ∷ []) (1 ∷ [])
        then some (7 ∷ [])
        else table_get (table_prefix b_name) (1 ∷ []) empty_db))
table_get-table_put_example =
    table_get-table_put a_name b_name (1 ∷ []) (1 ∷ []) (7 ∷ []) empty_db (refl, tt) (refl, tt) refl

flush-flush_example :
    (filled flushed written again : Memorydb) × (put
        (realkey (table_prefix a_name) (1 ∷ []))
        (7 ∷ [])
        (start_batch empty_db)
      ≡ ok filled)
    × (flush filled ≡ ok flushed)
    × (table_put (table_prefix a_name) (1 ∷ []) (8 ∷ []) flushed ≡ ok written)
    × (table_get (table_prefix a_name) (1 ∷ []) written ≡ some (8 ∷ []))
    × (flush written ≡ ok again)
    × (table_get (table_prefix a_name) (1 ∷ []) again ≡ some (7 ∷ []))
flush-flush_example = flush-flush (table_prefix a_name) (1 ∷ []) (7 ∷ []) (8 ∷ []) empty_db refl
