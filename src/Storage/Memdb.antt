-- ===== src/Storage/Memdb.antt =====
-- storage/memdb: a database in memory, with tables, batches and transactions. The mutexes make an
-- operation one step. The channel `writeLock` has room for one token: a write waits while it is
-- held, which `blocks` says, and a transaction holds it until it is closed. Values are not nil, and
-- a key without a value is `none`.
mod Tests
pub mod Writes
pub mod Tables
use boxd.Prelude.{
  ℕ, ◌≡◌, refl, Bool, true, false, not, ◌&&◌, Option, none, some, List, [], ◌∷◌, ◌++◌, length, take,
  drop, bytes_equal, bytes_equal_refl, bytes_equal→eq, if◌then◌else◌,
}
use boxd.Prelude.Assoc.{KeyEq, find, store}
use boxd.Prelude.Result.{Result, ok, err, ◌>>=◌}

abbrev pub Bytes : Type 0
Bytes = List ℕ

abbrev pub bytes_key : KeyEq Bytes
bytes_key = record { same = bytes_equal; same_refl = bytes_equal_refl; same→eq = bytes_equal→eq }

abbrev pub Store : Type 0
Store = List (Bytes × Bytes)

pub data StorageError : Type 0 where
  transaction_exists : StorageError
  transaction_closed : StorageError
  only_support_batch_opt : StorageError
  -- The write waits for the lock.
  blocks : StorageError

-- opPut and opDel with their keys and values.
pub data Bop : Type 0 where
  op_put : Bytes → Bytes → Bop
  op_del : Bytes → Bop

-- `write_lock` is whether the token is in the channel, `batch` the operations of the batch that
-- EnableBatch makes.
pub record Memorydb : Type 0 where
  pub db : Store
  pub enable_batch : Bool
  pub batch : List Bop
  pub write_lock : Bool

-- delete(db, key)
unfoldable pub erase : Bytes → Store → Store
erase k [] = []
erase k ((j, v) ∷ m) = if bytes_equal j k then erase k m else (j, v) ∷ erase k m

-- A table's prefix is its name and a dot.
unfoldable pub table_prefix : Bytes → Bytes
table_prefix name = name ++ (0x2e ∷ [])

unfoldable pub realkey : Bytes → Bytes → Bytes
realkey prefix key = prefix ++ key

-- bytes.HasPrefix
unfoldable pub has_prefix : Bytes → Bytes → Bool
has_prefix key prefix = bytes_equal (take (length prefix) key) prefix

unfoldable pub drop_keys : Bytes → Store → Store
drop_keys prefix [] = []
drop_keys prefix ((j, v) ∷ m) =
    if has_prefix j prefix then drop_keys prefix m else (j, v) ∷ drop_keys prefix m

-- A write that takes the lock and gives it back.
unfoldable pub locked : Memorydb → Store → Result StorageError Memorydb
locked d new = if d.write_lock then err blocks else ok (record d { db = new })

unfoldable pub drop_table : Bytes → Memorydb → Result StorageError Memorydb
unfolding locked drop_keys table_prefix
drop_table name d = locked d (drop_keys (table_prefix name) d.db)

unfoldable pub start_batch : Memorydb → Memorydb
start_batch d = record d { enable_batch = true; batch = [] }

unfoldable pub disable_batch : Memorydb → Memorydb
disable_batch d = record d { enable_batch = false; batch = [] }

unfoldable pub close : Memorydb → Result StorageError Memorydb
unfolding locked
close d = locked d []

-- Put and Del of a batch.
unfoldable pub batch_put : Bytes → Bytes → List Bop → List Bop
batch_put key value ops = ops ++ (op_put key value ∷ [])

unfoldable pub batch_del : Bytes → List Bop → List Bop
batch_del key ops = ops ++ (op_del key ∷ [])

-- for _, o := range b.ops
unfoldable pub write_ops : Bytes → List Bop → Store → Store
unfolding realkey erase
write_ops prefix [] m = m
write_ops prefix (op_put k v ∷ ops) m =
    write_ops prefix ops (store bytes_key (realkey prefix k) v m)
write_ops prefix (op_del k ∷ ops) m = write_ops prefix ops (erase (realkey prefix k) m)

-- Write of a batch with a prefix; the operations stay in it.
unfoldable pub batch_write : Bytes → List Bop → Memorydb → Result StorageError Memorydb
unfolding locked write_ops
batch_write prefix ops d = locked d (write_ops prefix ops d.db)

unfoldable pub put : Bytes → Bytes → Memorydb → Result StorageError Memorydb
unfolding locked batch_put
put key value d =
    if d.enable_batch
    then ok (record d { batch = batch_put key value d.batch })
    else locked d (store bytes_key key value d.db)

unfoldable pub del : Bytes → Memorydb → Result StorageError Memorydb
unfolding locked batch_del erase
del key d =
    if d.enable_batch
    then ok (record d { batch = batch_del key d.batch })
    else locked d (erase key d.db)

unfoldable pub flush : Memorydb → Result StorageError Memorydb
unfolding batch_write
flush d = if d.enable_batch then batch_write [] d.batch d else err only_support_batch_opt

unfoldable pub get : Bytes → Memorydb → Option Bytes
get key d = find bytes_key d.db key

unfoldable pub has : Bytes → Memorydb → Bool
has key d = elim (find bytes_key d.db key) [ none ↦ false | some v ↦ true ]

-- A table of the database by its prefix: its methods take the lock whether or not batches are on.
unfoldable pub table_put : Bytes → Bytes → Bytes → Memorydb → Result StorageError Memorydb
unfolding locked realkey
table_put prefix key value d = locked d (store bytes_key (realkey prefix key) value d.db)

unfoldable pub table_del : Bytes → Bytes → Memorydb → Result StorageError Memorydb
unfolding locked realkey erase
table_del prefix key d = locked d (erase (realkey prefix key) d.db)

unfoldable pub table_get : Bytes → Bytes → Memorydb → Option Bytes
unfolding realkey
table_get prefix key d = find bytes_key d.db (realkey prefix key)

unfoldable pub multi_get : Bytes → List Bytes → Memorydb → Option (List Bytes)
unfolding table_get
multi_get prefix [] d = some []
multi_get prefix (k ∷ ks) d = elim (table_get prefix k d) [
  | none ↦ none
  | some v ↦ elim (multi_get prefix ks d) [ none ↦ none | some vs ↦ some (v ∷ vs) ]
]

unfoldable pub keys_loop : Bytes → ℕ → Store → List Bytes
unfolding has_prefix
keys_loop prefix cut [] = []
keys_loop prefix cut ((j, v) ∷ m) =
    if has_prefix j prefix then drop cut j ∷ keys_loop prefix cut m else keys_loop prefix cut m

-- The keys of a table, without its prefix, in the order of the store.
unfoldable pub keys_with_prefix : Bytes → Bytes → Memorydb → List Bytes
unfolding keys_loop
keys_with_prefix table prefix d = keys_loop (table ++ prefix) (length table) d.db

-- A transaction on the database (the empty prefix) or on a table.
pub record Mtx : Type 0 where
  pub prefix : Bytes
  pub ops : List Bop
  pub closed : Bool

-- It waits 100 ms for the lock.
unfoldable pub new_transaction : Bytes → Memorydb → Result StorageError (Mtx × Memorydb)
new_transaction prefix d =
    if d.write_lock
    then err transaction_exists
    else ok (record { prefix = prefix; ops = []; closed = false }, record d { write_lock = true })

unfoldable pub tx_put : Bytes → Bytes → Mtx → Result StorageError Mtx
unfolding batch_put
tx_put key value tx =
    if tx.closed
    then err transaction_closed
    else ok (record tx { ops = batch_put key value tx.ops })

unfoldable pub tx_del : Bytes → Mtx → Result StorageError Mtx
unfolding batch_del
tx_del key tx =
    if tx.closed then err transaction_closed else ok (record tx { ops = batch_del key tx.ops })

-- It reads the database, not its own operations.
unfoldable pub tx_get : Bytes → Mtx → Memorydb → Result StorageError (Option Bytes)
unfolding table_get
tx_get key tx d = if tx.closed then err transaction_closed else ok (table_get tx.prefix key d)

unfoldable pub commit : Mtx → Memorydb → Result StorageError (Mtx × Memorydb)
unfolding write_ops
commit tx d =
    if tx.closed
    then err transaction_closed
    else ok (
      record tx { closed = true },
      record d { db = write_ops tx.prefix tx.ops d.db; write_lock = false },
    )

unfoldable pub discard : Mtx → Memorydb → Mtx × Memorydb
discard tx d =
    if tx.closed
    then (record tx { ops = [] }, d)
    else (record tx { ops = []; closed = true }, record d { write_lock = false })
