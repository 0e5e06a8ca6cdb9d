-- ===== src/Chain/UtxoSet/Coins/Transfer.antt =====
-- A transaction applied to the set and reverted, as coins.
use boxd.Prelude.{
  ℕ, ◌≡◌, refl, ◌∙◌, inl, inr, Bool, not, ◌&&◌, ◌||◌, Option, none, some, [], All, if◌then◌else◌,
  Bool-cases,
}
use boxd.Prelude.Result.{ok}
use boxd.Types.Block.{TypedTx}
use boxd.Types.Transaction.{Transaction, OutPoint}
use boxd.Chain.UtxoSet.{UtxoSet, View, find_utxo}
use boxd.Chain.UtxoSet.Apply.{apply_tx, spend_inputs, apply_outputs}
use boxd.Chain.UtxoSet.Coins.{Coin, unspent, known, created}
use boxd.Chain.Common.{is_coin_base, is_internal_contract}
use boxd.Chain.UtxoSet.Coins.{spends}
use boxd.Chain.UtxoSet.Coins.Spend.{unspent-spend_inputs, known-spend_inputs}
use boxd.Chain.UtxoSet.Coins.Plain.{IsPlain, output_of, or_else, AddsCoins, apply_outputs-AddsCoins}

-- The transactions whose inputs are no outpoints.
abbrev pub makes_coins : Transaction → Bool
makes_coins tx = is_coin_base tx || is_internal_contract tx

-- The set of coins after a transaction: its inputs are gone, its outputs are there.
unfoldable pub transfer : TypedTx → ℕ → (OutPoint → Option Coin) → OutPoint → Option Coin
unfolding created or_else spends
transfer t height coins op =
    if not (makes_coins t.tx) && spends t.tx.vin op
    then none
    else or_else (created t.hash 0 t.tx.vout height op) (coins op)

module _ (view : View) where
  -- No output of the transaction is in the set yet.
  abbrev pub IsFresh : TypedTx → UtxoSet → Type 0
  IsFresh t u = (i : ℕ) → find_utxo u (output_of t i) ≡ none

  apply_tx-spends :
      (t : TypedTx) (height : ℕ) (u added : UtxoSet)
      → apply_outputs view t 0 t.tx.vout height u ≡ ok added
      → apply_tx view t height u
        ≡ ok (if makes_coins t.tx then added else spend_inputs t.kind t.tx.vin added)
  unfolding apply_tx
  apply_tx-spends t height u added e = rw e refl

  pub record Transfers (t : TypedTx) (height : ℕ) (u : UtxoSet) : Type 0 where
    pub next : UtxoSet
    pub returns : apply_tx view t height u ≡ ok next
    pub coins : (op : OutPoint) → unspent next op ≡ transfer t height (unspent u) op
    pub kept : (op : OutPoint) (c : Coin) → known u op ≡ some c → known next op ≡ some c

  pub apply_tx-Transfers :
      (t : TypedTx) (height : ℕ) (u : UtxoSet)
      → All (IsPlain view) t.tx.vout
      → IsFresh t u
      → Transfers t height u
  unfolding transfer
  apply_tx-Transfers t height u plain fresh =
      let adds : AddsCoins t 0 t.tx.vout height u (apply_outputs view t 0 t.tx.vout height u) =
        apply_outputs-AddsCoins view t height [] t.tx.vout 0 u refl refl plain (λ i le. fresh i) in
      elim (Bool-cases (makes_coins t.tx)) [
        | inl h ↦ record {
          next = adds.next;
          returns = apply_tx-spends t height u adds.next adds.returns ∙ rw h refl;
          coins = λ op. rw h (adds.coins op);
          kept = adds.kept;
        }
        | inr h ↦ record {
          next = spend_inputs t.kind t.tx.vin adds.next;
          returns = apply_tx-spends t height u adds.next adds.returns ∙ rw h refl;
          coins = λ op.
              rw h (unspent-spend_inputs t.kind t.tx.vin adds.next op ∙ rw (adds.coins op) refl);
          kept = λ op c q. known-spend_inputs t.kind t.tx.vin adds.next op c (adds.kept op c q);
        }
      ]

  -- A plain transaction whose outputs are new is applied without an error, and the coins that can be
  -- spent are then those before it, less its inputs (unless it is a coinbase or an internal contract
  -- transaction) and with its spendable outputs, of the block's height.
  pub apply_tx-transfer :
      (t : TypedTx) (height : ℕ) (u : UtxoSet)
      → All (IsPlain view) t.tx.vout
      → IsFresh t u
      → (next : UtxoSet) × (apply_tx view t height u ≡ ok next)
        × ((op : OutPoint) → unspent next op ≡ transfer t height (unspent u) op)
  apply_tx-transfer t height u plain fresh =
      let applied : Transfers t height u = apply_tx-Transfers t height u plain fresh in
      (applied.next, applied.returns, applied.coins)
