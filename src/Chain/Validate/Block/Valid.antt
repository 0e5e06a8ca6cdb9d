-- ===== src/Chain/Validate/Block/Valid.antt =====
-- What a block that passes the checks is.
use boxd.Prelude.{
  not-false, subst, ℕ, ◌+◌, ◌≡◌, refl, sym, ap, ◌∙◌, Bool, true, false, not, Option, none, some,
  List, [], ◌∷◌, All, bytes_equal, bytes_equal→eq, ltb, if◌then◌else◌,
}
use boxd.Prelude.Ends.{ok-bind, ok-unless, ok-injective}
use boxd.Prelude.Result.{ok, err}
use boxd.Chain.Common.{is_coin_base}
use boxd.Chain.Error.{ChainError, no_transactions}
use boxd.Chain.Validate.{is_tx_finalized, validate_transaction_preliminary}
use boxd.Chain.Validate.Sane.{IsSane, validate_transaction_preliminary-IsSane}
use boxd.Chain.Validate.Block.{
  max_txs_rough_size, some_coin_base, is_spent_before, spend_once, calc_txs_hash, check_tx,
  check_txs, check_root, validate_txs, validate_block,
}
use boxd.TxLogic.Kind.{is_standard_tx}
use boxd.Types.Block.{TypedTx, Block}
use boxd.Types.Transaction.{OutPoint, TxIn, rough_size}
use boxd.Util.Merkle.{Hashing}

-- The outpoints that transactions spend, the last first, before some others.
abbrev pub outpoints : List TxIn → List OutPoint → List OutPoint
outpoints [] existing = existing
outpoints (tx_in ∷ vin) existing = outpoints vin (tx_in.prev_out_point ∷ existing)

abbrev pub block_outpoints : List TypedTx → List OutPoint → List OutPoint
block_outpoints [] existing = existing
block_outpoints (t ∷ txs) existing = block_outpoints txs (outpoints t.tx.vin existing)

-- No outpoint stands twice in the list.
abbrev pub AreDistinct : List OutPoint → Type 0
AreDistinct [] = Unit
AreDistinct (op ∷ ops) = (is_spent_before op ops ≡ false) × AreDistinct ops

spend_once-AreDistinct :
    (vin : List TxIn) (existing spent : List OutPoint)
    → AreDistinct existing
    → spend_once vin existing ≡ ok spent
    → (spent ≡ outpoints vin existing) × AreDistinct spent
unfolding spend_once
spend_once-AreDistinct [] existing spent h e =
    let same = ok-injective {E = ChainError} existing spent e in
    (sym same, subst AreDistinct same h)
spend_once-AreDistinct (tx_in ∷ vin) existing spent h e =
    let (new, rest) = ok-unless (is_spent_before tx_in.prev_out_point existing) _ _ spent e in
    spend_once-AreDistinct vin (tx_in.prev_out_point ∷ existing) spent (new, h) rest

neither : (c r : Bool) → (if c then true else r) ≡ false → (c ≡ false) × (r ≡ false)
neither true r e = absurd cc
neither false r e = (refl, e)

others-AreOrdinary :
    (txs : List TypedTx)
    → some_coin_base txs ≡ false
    → All (λ (t : TypedTx). is_coin_base t.tx ≡ false) txs
unfolding some_coin_base
others-AreOrdinary [] e = tt
others-AreOrdinary (t ∷ txs) e =
    let (first, rest) = neither (is_coin_base t.tx) (some_coin_base txs) e in
    (first, others-AreOrdinary txs rest)

check_root-is_root :
    (block : Block) (root : Option (List ℕ))
    → check_root block root ≡ ok tt
    → root ≡ some block.header.txs_root
unfolding check_root
check_root-is_root block none e = absurd cc
check_root-is_root block (some root) e =
    let (same, done) = ok-unless (not (bytes_equal block.header.txs_root root)) _ _ tt e in
    ap some (sym (bytes_equal→eq block.header.txs_root root (not-false _ same)))

module _ (statedb : Option (List ℕ → Bool)) (hashing : Hashing) where
  -- What the checks of one transaction ask of it.
  pub record IsAccepted (block : Block) (t : TypedTx) : Type 0 where
    pub is_sane : IsSane t.tx
    pub is_final : is_tx_finalized t.tx block.header.height block.header.time_stamp ≡ true
    pub left : ℕ
    pub is_standard : is_standard_tx statedb t.kind t.tx.vout ≡ ok (true, left)

  check_tx-IsAccepted :
      (block : Block) (t : TypedTx) (existing spent : List OutPoint)
      → AreDistinct existing
      → check_tx statedb hashing block t existing ≡ ok spent
      → IsAccepted block t × (spent ≡ outpoints t.tx.vin existing) × AreDistinct spent
  unfolding check_tx
  check_tx-IsAccepted block t existing spent h e =
      let (final, run) =
        ok-unless (not (is_tx_finalized t.tx block.header.height block.header.time_stamp)) _ _ spent
          e in
      let (u, sane, run2) = ok-bind (validate_transaction_preliminary t.tx) _ spent run in
      let (once, fresh, run3) = ok-bind (spend_once t.tx.vin existing) _ spent run2 in
      let (found, asked, run4) = ok-bind (is_standard_tx statedb t.kind t.tx.vout) _ spent run3 in
      let (standard, last) = ok-unless (not found.0) _ _ spent run4 in
      let same : once ≡ spent = ok-injective {E = ChainError} once spent last in
      let (all, distinct) = spend_once-AreDistinct t.tx.vin existing once h fresh in
      (
        record {
          is_sane = (validate_transaction_preliminary-IsSane t.tx).0 sane;
          is_final = not-false _ final;
          left = found.1;
          is_standard = asked ∙ ap (λ (b : Bool). ok (b, found.1)) (not-false found.0 standard);
        },
        sym same ∙ all,
        subst AreDistinct same distinct,
      )

  check_txs-AreAccepted :
      (block : Block) (txs : List TypedTx) (size : ℕ) (existing spent : List OutPoint)
      → AreDistinct existing
      → check_txs statedb hashing block txs size existing ≡ ok spent
      → All (IsAccepted block) txs × (spent ≡ block_outpoints txs existing) × AreDistinct spent
  unfolding check_txs
  check_txs-AreAccepted block [] size existing spent h e =
      let same = ok-injective {E = ChainError} existing spent e in
      (tt, sym same, subst AreDistinct same h)
  check_txs-AreAccepted block (t ∷ txs) size existing spent h e =
      let (fits, run) = ok-unless (ltb max_txs_rough_size (size + rough_size t.tx)) _ _ spent e in
      let (next, one, rest) = ok-bind (check_tx statedb hashing block t existing) _ spent run in
      let (good, is_next, distinct) = check_tx-IsAccepted block t existing next h one in
      let (others, is_all, at_end) =
        check_txs-AreAccepted block txs (size + rough_size t.tx) next spent distinct rest in
      ((good, others), is_all ∙ ap (block_outpoints txs) is_next, at_end)

  -- A first transaction that makes coins and others that do not, each accepted, no outpoint spent
  -- twice, and the root that the header names.
  pub record IsValid (block : Block) : Type 0 where
    pub first : TypedTx
    pub others : List TypedTx
    pub is_split : block.txs ≡ first ∷ others
    pub first_makes_coins : is_coin_base first.tx ≡ true
    pub others_do_not : All (λ (t : TypedTx). is_coin_base t.tx ≡ false) others
    pub are_accepted : All (IsAccepted block) (first ∷ others)
    pub spend_once : AreDistinct (block_outpoints (first ∷ others) [])
    pub is_root : calc_txs_hash hashing (first ∷ others) ≡ ok (some block.header.txs_root)

  validate_txs-IsValid :
      (block : Block) (first : TypedTx) (others : List TypedTx)
      → block.txs ≡ first ∷ others
      → validate_txs statedb hashing block first others ≡ ok tt
      → IsValid block
  unfolding validate_txs
  validate_txs-IsValid block first others e accepted =
      let (coins, run) = ok-unless (not (is_coin_base first.tx)) _ _ tt accepted in
      let (single, run2) = ok-unless (some_coin_base others) _ _ tt run in
      let (spent, checked, run3) =
        ok-bind (check_txs statedb hashing block (first ∷ others) 0 []) _ tt run2 in
      let (root, hashed, last) = ok-bind (calc_txs_hash hashing (first ∷ others)) _ tt run3 in
      let (good, is_all, distinct) =
        check_txs-AreAccepted block (first ∷ others) 0 [] spent tt checked in
      record {
        first = first;
        others = others;
        is_split = e;
        first_makes_coins = not-false _ coins;
        others_do_not = others-AreOrdinary others single;
        are_accepted = good;
        spend_once = subst AreDistinct is_all distinct;
        is_root = hashed ∙ ap ok (check_root-is_root block root last);
      }

  validate_block-empty :
      (block : Block) → block.txs ≡ [] → validate_block statedb hashing block ≡ err no_transactions
  unfolding validate_block
  validate_block-empty block e = rw (validate_block, e) refl

  validate_block-split :
      (block : Block) (first : TypedTx) (others : List TypedTx)
      → block.txs ≡ first ∷ others
      → validate_block statedb hashing block ≡ validate_txs statedb hashing block first others
  unfolding validate_block
  validate_block-split block first others e = rw (validate_block, e) refl

  by_txs :
      (block : Block) (txs : List TypedTx)
      → block.txs ≡ txs
      → validate_block statedb hashing block ≡ ok tt
      → IsValid block
  by_txs block [] e accepted = absurd (cc (validate_block-empty block e, accepted))
  by_txs block (first ∷ others) e accepted =
      validate_txs-IsValid block first others e
        (sym (validate_block-split block first others e) ∙ accepted)

  -- A block that passes: its first transaction makes coins and no other does, each transaction is
  -- sane, final at the block's height and time, and standard, no outpoint is spent twice in the
  -- block, and the Merkle root of the hashes is the header's.
  pub validate_block-IsValid :
      (block : Block) → validate_block statedb hashing block ≡ ok tt → IsValid block
  validate_block-IsValid block accepted = by_txs block block.txs refl accepted
