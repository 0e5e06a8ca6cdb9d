-- ===== src/Chain/UtxoSet/Coins/Blocks.antt =====
-- A block's transactions applied in turn and reverted from the last to the first.
use boxd.Prelude.{ℕ, ◌≡◌, refl, ap, ◌∙◌, List, [], ◌∷◌, ◌++◌, reverse, append-nil, All}
use mathlib.Core.List.{reverse-cons}
use boxd.Prelude.Ends.{ok-bind, ok-injective}
use boxd.Prelude.Result.{ok}
use boxd.Chain.Error.{ChainError}
use boxd.Types.Block.{TypedTx, Block}
use boxd.Types.Transaction.{OutPoint}
use boxd.Chain.UtxoSet.{UtxoSet, View}
use boxd.Chain.UtxoSet.Apply.{apply_tx, apply_txs, apply_block}
use boxd.Chain.UtxoSet.Revert.{revert_tx, revert_txs, revert_block}
use boxd.Chain.UtxoSet.Coins.{unspent}
use boxd.Chain.UtxoSet.Coins.Plain.{IsPlain}
use boxd.Chain.UtxoSet.Coins.Transfer.{IsFresh, Transfers, apply_tx-Transfers}
use boxd.Chain.UtxoSet.Coins.Undo.{IsCovered, Keeps, SameCoins, Reverted, revert_tx-Reverted}

module _ (view : View) where
  -- Each transaction is plain, and in the set that those before it leave its outputs are new and its
  -- inputs can be spent.
  abbrev pub AreApplicable : ℕ → List TypedTx → UtxoSet → Type 0
  AreApplicable height [] u = Unit
  AreApplicable height (t ∷ txs) u =
      All (IsPlain view) t.tx.vout
      × IsFresh view t u
      × IsCovered t u
      × ((next : UtxoSet) → apply_tx view t height u ≡ ok next → AreApplicable height txs next)

  -- Transactions that are applied, and that can be reverted from any set with the coins and the
  -- entries that they left.
  record Revertible (height : ℕ) (txs : List TypedTx) (u : UtxoSet) : Type 0 where
    applied : UtxoSet
    applies : apply_txs view txs height u ≡ ok applied
    kept : Keeps u applied
    undo :
        (v : UtxoSet)
        → SameCoins v applied
        → Keeps applied v
        → (r : UtxoSet) × (revert_txs view (reverse txs) v ≡ ok r) × SameCoins r u × Keeps v r

  apply_txs-next :
      (t : TypedTx) (txs : List TypedTx) (height : ℕ) (u next : UtxoSet)
      → apply_tx view t height u ≡ ok next
      → apply_txs view (t ∷ txs) height u ≡ apply_txs view txs height next
  unfolding apply_txs
  apply_txs-next t txs height u next e = rw e refl

  revert_txs-append :
      (xs ys : List TypedTx) (u v w : UtxoSet)
      → revert_txs view xs u ≡ ok v
      → revert_txs view ys v ≡ ok w
      → revert_txs view (xs ++ ys) u ≡ ok w
  unfolding revert_txs
  revert_txs-append [] ys u v w e q =
      ap (revert_txs view ys) (ok-injective {E = ChainError} u v e) ∙ q
  revert_txs-append (t ∷ xs) ys u v w e q =
      let (next, one, rest) = ok-bind (revert_tx view t u) _ v e in
      rw one (revert_txs-append xs ys next v w rest q)

  revert_txs-one :
      (t : TypedTx) (u v : UtxoSet) → revert_tx view t u ≡ ok v → revert_txs view (t ∷ []) u ≡ ok v
  unfolding revert_txs
  revert_txs-one t u v e = rw e refl

  apply_txs-Revertible :
      (height : ℕ) (txs : List TypedTx) (u : UtxoSet)
      → AreApplicable height txs u
      → Revertible height txs u
  unfolding apply_txs revert_txs
  apply_txs-Revertible height [] u h = record {
    applied = u;
    applies = refl;
    kept = λ op c q. q;
    undo = λ v same keeps. (v, refl, same, λ op c q. q);
  }
  apply_txs-Revertible height (t ∷ txs) u (plain, fresh, covered, later) =
      let done : Transfers view t height u = apply_tx-Transfers view t height u plain fresh in
      let rest : Revertible height txs done.next =
        apply_txs-Revertible height txs done.next (later done.next done.returns) in
      record {
        applied = rest.applied;
        applies = apply_txs-next t txs height u done.next done.returns ∙ rest.applies;
        kept = λ op c q. rest.kept op c (done.kept op c q);
        undo = λ v same keeps.
            let (w, others, coins, kept) = rest.undo v same keeps in
            let back : Reverted view t u w =
              revert_tx-Reverted view t height u w plain fresh covered done coins
                (λ op c q. kept op c (keeps op c (rest.kept op c q))) in
            (
              back.reverted,
              ap (λ l. revert_txs view l v) (reverse-cons t txs)
                  ∙ revert_txs-append (reverse txs) (t ∷ []) v w back.reverted others
                      (revert_txs-one t w back.reverted back.reverts),
              back.coins,
              λ op c q. back.kept op c (kept op c q),
            );
      }

  -- A block of plain transactions, each of which can be applied in the set that those before it
  -- leave, so that one may spend the outputs of another in front of it, and without internal
  -- transactions: applying it and then reverting it both succeed, and every outpoint has the coin it
  -- had before, or none as before.
  pub revert_block-apply_block :
      (block : Block) (u : UtxoSet)
      → block.internal_txs ≡ []
      → AreApplicable block.header.height block.txs u
      → (applied reverted : UtxoSet) × (apply_block view block u ≡ ok applied)
        × (revert_block view block applied ≡ ok reverted)
        × ((op : OutPoint) → unspent reverted op ≡ unspent u op)
  unfolding apply_block revert_block
  revert_block-apply_block block u none_internal h =
      let all : Revertible block.header.height block.txs u =
        apply_txs-Revertible block.header.height block.txs u h in
      let (r, e, coins, kept) = all.undo all.applied (λ op. refl) (λ op c q. q) in
      let txs : block.txs ++ block.internal_txs ≡ block.txs =
        ap (λ l. block.txs ++ l) none_internal ∙ append-nil block.txs in
      (
        all.applied,
        r,
        all.applies,
        ap (λ l. revert_txs view (reverse l) all.applied) txs ∙ e,
        coins,
      )
