-- ===== src/Storage/Memdb/Tables.antt =====
-- Tables of one database: what a write in one of them changes.
use boxd.Prelude.{
  ℕ, ◌≡◌, refl, sym, ap, ◌∙◌, inl, inr, Bool, true, false, ◌&&◌, some, [], ◌∷◌, ◌++◌, All, ◌==◌,
  bytes_equal, bytes_equal_refl, if◌then◌else◌, Bool-cases, arith,
}
use boxd.Prelude.Assoc.{find, store, find-store_same, find-store_other}
use boxd.Prelude.Result.{ok}
use boxd.Storage.Memdb.{
  Bytes, bytes_key, op_put, Memorydb, start_batch, realkey, locked, table_prefix, write_ops,
  batch_put, batch_write, put, flush, table_put, table_get,
}

-- A name without the dot that ends the prefix.
abbrev pub HasNoDot : Bytes → Type 0
HasNoDot name = All (λ b. (b == 0x2e) ≡ false) name

dot_differs : (b : ℕ) → (b == 0x2e) ≡ false → (0x2e == b) ≡ false
dot_differs b h = ground arith

and_assoc : (a b c : Bool) → (a && (b && c)) ≡ ((a && b) && c)
and_assoc true b c = refl
and_assoc false b c = refl

-- The key of a table's key tells the table and the key.
same_realkey :
    (n1 n2 k1 k2 : Bytes)
    → HasNoDot n1
    → HasNoDot n2
    → bytes_equal (realkey (table_prefix n1) k1) (realkey (table_prefix n2) k2)
      ≡ (bytes_equal n1 n2 && bytes_equal k1 k2)
unfolding bytes_equal realkey table_prefix
same_realkey [] [] k1 k2 h1 h2 = refl
same_realkey [] (b ∷ n2) k1 k2 h1 h2 =
    ap (λ (t : Bool). t && bytes_equal k1 ((n2 ++ (0x2e ∷ [])) ++ k2)) (dot_differs b h2.0)
same_realkey (a ∷ n1) [] k1 k2 h1 h2 =
    ap (λ (t : Bool). t && bytes_equal ((n1 ++ (0x2e ∷ [])) ++ k1) k2) h1.0
same_realkey (a ∷ n1) (b ∷ n2) k1 k2 h1 h2 =
    ap (λ (t : Bool). a == b && t) (same_realkey n1 n2 k1 k2 h1.1 h2.1)
    ∙ and_assoc (a == b) (bytes_equal n1 n2) (bytes_equal k1 k2)

-- A write in a table whose lock is free is read back, and no other key of a table is changed, of
-- this table or of one with another name; the names have no dots.
pub table_get-table_put :
    (n1 n2 k1 k2 v : Bytes) (d : Memorydb)
    → HasNoDot n1
    → HasNoDot n2
    → d.write_lock ≡ false
    → (next : Memorydb) × (table_put (table_prefix n1) k1 v d ≡ ok next)
      × (table_get (table_prefix n2) k2 next ≡ (
          if bytes_equal n1 n2 && bytes_equal k1 k2
          then some v
          else table_get (table_prefix n2) k2 d))
unfolding table_put table_get locked
table_get-table_put n1 n2 k1 k2 v d h1 h2 free = (
  record d { db = store bytes_key (realkey (table_prefix n1) k1) v d.db },
  rw free refl,
  read (same_realkey n1 n2 k1 k2 h1 h2),
)
  where
    full : Bytes
    full = realkey (table_prefix n1) k1

    other : Bytes
    other = realkey (table_prefix n2) k2

    read :
        bytes_equal full other ≡ (bytes_equal n1 n2 && bytes_equal k1 k2)
        → find bytes_key (store bytes_key full v d.db) other
          ≡ (if bytes_equal n1 n2 && bytes_equal k1 k2 then some v else find bytes_key d.db other)
    read e = rw (sym e) (elim (Bool-cases (bytes_equal full other)) [
      | inl hit ↦ rw (hit, find-store_same bytes_key full other v d.db hit) refl
      | inr miss ↦ rw (miss, find-store_other bytes_key full other v d.db miss) refl
    ])

-- An operation of the batch that EnableBatch makes stays in it when it is flushed: a later flush
-- writes it again, over a value that a table was given in between.
pub flush-flush :
    (p k v w : Bytes) (d : Memorydb)
    → d.write_lock ≡ false
    → (filled flushed written again : Memorydb) × (put (realkey p k) v (start_batch d) ≡ ok filled)
      × (flush filled ≡ ok flushed)
      × (table_put p k w flushed ≡ ok written)
      × (table_get p k written ≡ some w)
      × (flush written ≡ ok again)
      × (table_get p k again ≡ some v)
unfolding put start_batch batch_put flush batch_write table_put table_get locked write_ops realkey
flush-flush p k v w d free =
    let key = realkey p k in
    let once = store bytes_key key v d.db in
    let between = store bytes_key key w once in
    let twice = store bytes_key key v between in
    (
      record d { enable_batch = true; batch = op_put key v ∷ [] },
      record d { enable_batch = true; batch = op_put key v ∷ []; db = once },
      record d { enable_batch = true; batch = op_put key v ∷ []; db = between },
      record d { enable_batch = true; batch = op_put key v ∷ []; db = twice },
      refl,
      rw free refl,
      rw free refl,
      find-store_same bytes_key key key w once (bytes_equal_refl key),
      rw free refl,
      find-store_same bytes_key key key v between (bytes_equal_refl key),
    )
