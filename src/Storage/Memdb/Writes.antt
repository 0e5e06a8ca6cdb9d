-- ===== src/Storage/Memdb/Writes.antt =====
-- What a batch and a transaction write: for each key the last operation on it.
use boxd.Prelude.{
  ◌≡◌, refl, sym, ap, ◌∙◌, inl, inr, Bool, true, false, Option, none, some, List, [], ◌∷◌, ◌++◌,
  append_assoc, append-nil, bytes_equal, bytes_equal→eq, if◌then◌else◌, Bool-cases,
}
use boxd.Prelude.Assoc.{find, store, find-store_same, find-store_other}
use boxd.Prelude.Result.{Result, ok, err, ◌>>=◌}
use boxd.Storage.Memdb.{
  Bytes, bytes_key, Store, StorageError, transaction_closed, blocks, Bop, op_put, op_del, Memorydb,
  erase, realkey, locked, write_ops, batch_put, batch_del, table_put, Mtx, new_transaction, tx_put,
  tx_del, commit, discard,
}

pub find-erase_same :
    (k j : Bytes) (m : Store) → bytes_equal k j ≡ true → find bytes_key (erase k m) j ≡ none
unfolding find erase
find-erase_same k j [] e = refl
find-erase_same k j ((i, w) ∷ m) e = elim (Bool-cases (bytes_equal i k)) [
  | inl h ↦ rw h (find-erase_same k j m e)
  | inr h ↦
      let miss : bytes_equal i j ≡ false = ap (bytes_equal i) (sym (bytes_equal→eq k j e)) ∙ h in
      rw h (rw miss (find-erase_same k j m e))
]

pub find-erase_other :
    (k j : Bytes) (m : Store)
    → bytes_equal k j ≡ false
    → find bytes_key (erase k m) j ≡ find bytes_key m j
unfolding find erase
find-erase_other k j [] e = refl
find-erase_other k j ((i, w) ∷ m) e = elim (Bool-cases (bytes_equal i k)) [
  | inl h ↦
      let miss : bytes_equal i j ≡ false = ap (λ t. bytes_equal t j) (bytes_equal→eq i k h) ∙ e in
      rw h (rw miss (find-erase_other k j m e))
  | inr h ↦ elim (Bool-cases (bytes_equal i j)) [
    | inl hit ↦ rw h (rw hit refl)
    | inr miss ↦ rw h (rw miss (find-erase_other k j m e))
  ]
]

-- The result of an operation on its own key.
unfoldable pub outcome : Bop → Option Bytes
outcome (op_put k v) = some v
outcome (op_del k) = none

unfoldable pub touches : Bytes → Bop → Bytes → Bool
unfolding realkey
touches prefix (op_put k v) key = bytes_equal (realkey prefix k) key
touches prefix (op_del k) key = bytes_equal (realkey prefix k) key

-- What the last operation on a key leaves, or what was there.
unfoldable pub last_value : Bytes → List Bop → Bytes → Option Bytes → Option Bytes
unfolding outcome touches
last_value prefix [] key before = before
last_value prefix (o ∷ ops) key before =
    last_value prefix ops key (if touches prefix o key then outcome o else before)

-- The store after the operations has, for each key, what the last operation on it leaves.
pub find-write_ops :
    (prefix : Bytes) (ops : List Bop) (m : Store) (key : Bytes)
    → find bytes_key (write_ops prefix ops m) key ≡ last_value prefix ops key (find bytes_key m key)
unfolding write_ops last_value touches outcome
find-write_ops prefix [] m key = refl
find-write_ops prefix (op_put k v ∷ ops) m key =
    find-write_ops prefix ops (store bytes_key (realkey prefix k) v m) key
    ∙ elim (Bool-cases (bytes_equal (realkey prefix k) key)) [
      | inl hit ↦ rw (hit, find-store_same bytes_key (realkey prefix k) key v m hit) refl
      | inr miss ↦ rw (miss, find-store_other bytes_key (realkey prefix k) key v m miss) refl
    ]
find-write_ops prefix (op_del k ∷ ops) m key =
    find-write_ops prefix ops (erase (realkey prefix k) m) key
    ∙ elim (Bool-cases (bytes_equal (realkey prefix k) key)) [
      | inl hit ↦ rw (hit, find-erase_same (realkey prefix k) key m hit) refl
      | inr miss ↦ rw (miss, find-erase_other (realkey prefix k) key m miss) refl
    ]

-- A transaction's operations, one after the other.
unfoldable pub tx_run : List Bop → Mtx → Result StorageError Mtx
unfolding tx_put tx_del
tx_run [] tx = ok tx
tx_run (op_put k v ∷ ops) tx = do next ← tx_put k v tx; tx_run ops next
tx_run (op_del k ∷ ops) tx = do next ← tx_del k tx; tx_run ops next

abbrev open_tx : Bytes → List Bop → Mtx
open_tx prefix ops = record { prefix = prefix; ops = ops; closed = false }

tx_run-open :
    (ops before : List Bop) (prefix : Bytes)
    → tx_run ops (open_tx prefix before) ≡ ok (open_tx prefix (before ++ ops))
unfolding tx_run tx_put tx_del batch_put batch_del
tx_run-open [] before prefix =
    ap (λ (l : List Bop). ok (open_tx prefix l)) (sym (append-nil before))
tx_run-open (op_put k v ∷ ops) before prefix =
    tx_run-open ops (before ++ (op_put k v ∷ [])) prefix
    ∙ ap (λ (l : List Bop). ok (open_tx prefix l)) (append_assoc before (op_put k v ∷ []) ops)
tx_run-open (op_del k ∷ ops) before prefix =
    tx_run-open ops (before ++ (op_del k ∷ [])) prefix
    ∙ ap (λ (l : List Bop). ok (open_tx prefix l)) (append_assoc before (op_del k ∷ []) ops)

-- A transaction on a database whose lock is free: it is opened, a write of the database waits for
-- as long as it is open, its operations do not fail, and committing it gives the lock back and
-- leaves for each key what its last operation on the key leaves, or what was there. Its closed
-- handle can do nothing more.
pub commit-tx_run :
    (prefix : Bytes) (ops : List Bop) (d : Memorydb)
    → d.write_lock ≡ false
    → (tx done closed : Mtx) × (held after : Memorydb) × (new_transaction prefix d ≡ ok (tx, held))
      × ((p k v : Bytes) → table_put p k v held ≡ err blocks)
      × (tx_run ops tx ≡ ok done)
      × (commit done held ≡ ok (closed, after))
      × (after.write_lock ≡ false)
      × ((key : Bytes)
          → find bytes_key after.db key ≡ last_value prefix ops key (find bytes_key d.db key))
      × ((k v : Bytes) → tx_put k v closed ≡ err transaction_closed)
unfolding new_transaction table_put locked commit tx_put
commit-tx_run prefix ops d free = (
  open_tx prefix [],
  open_tx prefix ops,
  record { prefix = prefix; ops = ops; closed = true },
  record d { write_lock = true },
  record d { db = write_ops prefix ops d.db; write_lock = false },
  rw free refl,
  λ p k v. refl,
  tx_run-open ops [] prefix,
  refl,
  refl,
  λ key. find-write_ops prefix ops d.db key,
  λ k v. refl,
)

-- A transaction that is discarded instead leaves the store as it was and gives the lock back.
pub discard-tx_run :
    (prefix : Bytes) (ops : List Bop) (d : Memorydb)
    → d.write_lock ≡ false
    → (tx done : Mtx) × (held : Memorydb) × (new_transaction prefix d ≡ ok (tx, held))
      × (tx_run ops tx ≡ ok done)
      × ((discard done held).1.db ≡ d.db)
      × ((discard done held).1.write_lock ≡ false)
unfolding new_transaction discard
discard-tx_run prefix ops d free = (
  open_tx prefix [],
  open_tx prefix ops,
  record d { write_lock = true },
  rw free refl,
  tx_run-open ops [] prefix,
  refl,
  refl,
)
