-- ===== src/Chain/UtxoSet/Coins/Undo.antt =====
-- A transaction that is applied and reverted leaves the coins as they were.
use boxd.Prelude.{
  ℕ, suc, ◌≡◌, refl, sym, ap, ◌∙◌, inl, inr, Bool, true, false, not, ◌⊎◌, ◌&&◌, ◌||◌, none, some,
  List, [], ◌∷◌, All, Bool-cases, Option-cases,
}
use boxd.Prelude.Result.{ok}
use boxd.Script.Standard.{is_op_return_script}
use boxd.Types.Block.{TypedTx}
use boxd.Types.OutPointKey.{out_point_equal→eq}
use boxd.Types.Transaction.{is_contract_type, OutPoint, TxIn, TxOut, out_point_equal}
use boxd.Types.Utxo.{UtxoWrap, is_spent}
use boxd.Chain.UtxoSet.{UtxoSet, View, find_utxo}
use boxd.Chain.UtxoSet.Apply.{apply_tx}
use boxd.Chain.UtxoSet.Coins.{Coin, coin_of, unspent_of, unspent, known, created}
use boxd.Chain.UtxoSet.Revert.{spend_outputs, unspend_inputs, revert_tx}
use boxd.Chain.UtxoSet.Coins.{spends}
use boxd.Chain.UtxoSet.Coins.Plain.{IsPlain, output_of, or_else}
use boxd.Chain.UtxoSet.Coins.Unspend.{
  remove, IsFunded, Restores, unspend_inputs-Restores, spend_outputs-remove, known-spend_outputs,
}
use boxd.Chain.UtxoSet.Coins.Transfer.{
  makes_coins, transfer, IsFresh, Transfers, apply_tx-Transfers,
}

-- An input of a coin that can be spent and that no contract holds.
pub record IsSpendable (u : UtxoSet) (tx_in : TxIn) : Type 0 where
  pub funds : Coin
  pub is_plain : is_contract_type tx_in.prev_out_point ≡ false
  pub is_unspent : unspent u tx_in.prev_out_point ≡ some funds

no_coin : (c : Coin) → unspent_of none ≡ some c → ⊥
unfolding unspent_of
no_coin c q = cc

spent_coin : (w : UtxoWrap) (c : Coin) → is_spent w ≡ true → unspent_of (some w) ≡ some c → ⊥
unfolding unspent_of
spent_coin w c h = rw h (λ q. cc)

fresh_coin : (w : UtxoWrap) → is_spent w ≡ false → unspent_of (some w) ≡ coin_of (some w)
unfolding unspent_of coin_of
fresh_coin w h = rw h refl

known_of_unspent :
    (u : UtxoSet) (op : OutPoint) (c : Coin) → unspent u op ≡ some c → known u op ≡ some c
unfolding unspent known unspent_of coin_of
known_of_unspent u op c e = elim (Option-cases (find_utxo u op)) [
  | inl h ↦ absurd (no_coin c (ap unspent_of (sym h) ∙ e))
  | inr (w, h) ↦ elim (Bool-cases (is_spent w)) [
    | inl q ↦ absurd (spent_coin w c q (ap unspent_of (sym h) ∙ e))
    | inr q ↦ ap coin_of h ∙ sym (fresh_coin w q) ∙ ap unspent_of (sym h) ∙ e
  ]
]

both_right : (x y : Bool) → (x && y) ≡ true → y ≡ true
both_right true y e = e
both_right false y e = absurd cc

unspent_absent :
    (t : TypedTx) (idx : ℕ) (u : UtxoSet) (op : OutPoint)
    → out_point_equal (output_of t idx) op ≡ true
    → find_utxo u (output_of t idx) ≡ none
    → unspent u op ≡ none
unfolding unspent unspent_of
unspent_absent t idx u op hit absent =
    rw (sym (out_point_equal→eq (output_of t idx) op hit)) (ap unspent_of absent)

-- Some input that spends the outpoint has a coin.
spent_coin_of :
    (u : UtxoSet) (vin : List TxIn) (op : OutPoint)
    → All (IsSpendable u) vin
    → spends vin op ≡ true
    → (c : Coin) × (unspent u op ≡ some c)
unfolding spends
spent_coin_of u [] op all e = absurd cc
spent_coin_of u (tx_in ∷ vin) op all e =
    elim (Bool-cases (out_point_equal tx_in.prev_out_point op)) [
      | inl hit ↦ (
        all.0.funds,
        ap (unspent u) (sym (out_point_equal→eq tx_in.prev_out_point op hit)) ∙ all.0.is_unspent,
      )
      | inr miss ↦ spent_coin_of u vin op all.1 (ap (λ b. b || spends vin op) (sym miss) ∙ e)
    ]

All-IsFunded :
    (u v : UtxoSet) (vin : List TxIn)
    → ((op : OutPoint) (c : Coin) → known u op ≡ some c → known v op ≡ some c)
    → All (IsSpendable u) vin
    → All (IsFunded v) vin
All-IsFunded u v [] kept all = tt
All-IsFunded u v (tx_in ∷ vin) kept all = (
  record {
    funds = all.0.funds;
    is_plain = all.0.is_plain;
    is_known =
        kept tx_in.prev_out_point all.0.funds
          (known_of_unspent u tx_in.prev_out_point all.0.funds all.0.is_unspent);
  },
  All-IsFunded u v vin kept all.1,
)

-- What a set must still have for an older state of it to be restored: its entries' coins.
abbrev pub Keeps : UtxoSet → UtxoSet → Type 0
Keeps u v = (op : OutPoint) (c : Coin) → known u op ≡ some c → known v op ≡ some c

abbrev pub SameCoins : UtxoSet → UtxoSet → Type 0
SameCoins u v = (op : OutPoint) → unspent u op ≡ unspent v op

-- The inputs of the transaction are coins that can be spent, unless it makes coins.
abbrev pub IsCovered : TypedTx → UtxoSet → Type 0
IsCovered t u = (makes_coins t.tx ≡ true) ⊎ All (IsSpendable u) t.tx.vin

module _ (view : View) where
  revert_tx-restores :
      (t : TypedTx) (u : UtxoSet) (restored : UtxoSet)
      → makes_coins t.tx ≡ false
      → unspend_inputs view t.tx.vin (spend_outputs t.hash 0 t.tx.vout u) ≡ ok restored
      → revert_tx view t u ≡ ok restored
  unfolding revert_tx
  revert_tx-restores t u restored h e = rw h e

  revert_tx-removes :
      (t : TypedTx) (u : UtxoSet)
      → makes_coins t.tx ≡ true
      → revert_tx view t u ≡ ok (spend_outputs t.hash 0 t.tx.vout u)
  unfolding revert_tx
  revert_tx-removes t u h = rw h refl

  -- The coins of outputs that are new were not there.
  created-fresh :
      (t : TypedTx) (vouts : List TxOut) (idx height : ℕ) (u : UtxoSet) (op : OutPoint)
      → IsFresh view t u
      → remove
          (created t.hash idx vouts height op)
          (or_else (created t.hash idx vouts height op) (unspent u op))
        ≡ unspent u op
  unfolding created remove or_else
  created-fresh t [] idx height u op fresh = refl
  created-fresh t (vout ∷ vouts) idx height u op fresh =
      elim (Bool-cases
        (not (is_op_return_script vout.script_pub_key) && out_point_equal (output_of t idx) op)) [
          | inr miss ↦ rw miss (created-fresh t vouts (suc idx) height u op fresh)
          | inl hit ↦ rw hit (
              sym (
                unspent_absent t idx u op
                  (both_right (not (is_op_return_script vout.script_pub_key))
                    (out_point_equal (output_of t idx) op) hit)
                  (fresh idx)))
        ]

  pub record Reverted (t : TypedTx) (u v : UtxoSet) : Type 0 where
    pub reverted : UtxoSet
    pub reverts : revert_tx view t v ≡ ok reverted
    pub coins : SameCoins reverted u
    pub kept : Keeps v reverted

  -- A set with the coins that the transaction left, and with the entries that it left.
  pub revert_tx-Reverted :
      (t : TypedTx) (height : ℕ) (u v : UtxoSet)
      → All (IsPlain view) t.tx.vout
      → IsFresh view t u
      → IsCovered t u
      → (done : Transfers view t height u) → SameCoins v done.next
      → Keeps done.next v
      → Reverted t u v
  unfolding transfer
  revert_tx-Reverted t height u v plain fresh inputs done same keeps =
      let removed = spend_outputs t.hash 0 t.tx.vout v in
      let still : Keeps v removed =
        λ op c q. known-spend_outputs view t 0 t.tx.vout v op c plain q in
      let gone : (op : OutPoint)
          → (not (makes_coins t.tx) && spends t.tx.vin op) ≡ false
          → unspent removed op ≡ unspent u op =
        λ op h.
          spend_outputs-remove view t height 0 t.tx.vout v op plain
          ∙ ap (remove (created t.hash 0 t.tx.vout height op)) (same op ∙ done.coins op ∙ rw h refl)
          ∙ created-fresh t t.tx.vout 0 height u op fresh in
      elim (Bool-cases (makes_coins t.tx)) [
        | inl h ↦ record {
          reverted = removed;
          reverts = revert_tx-removes t v h;
          coins = λ op. gone op (rw h refl);
          kept = still;
        }
        | inr h ↦ elim inputs [
          | inl q ↦ absurd (cc (h, q))
          | inr all ↦
              let there : Keeps u removed = λ op c q. still op c (keeps op c (done.kept op c q)) in
              let back : Restores view t.tx.vin removed =
                unspend_inputs-Restores view t.tx.vin removed
                  (All-IsFunded u removed t.tx.vin there all) in
              record {
                reverted = back.next;
                reverts = revert_tx-restores t v back.next h back.returns;
                coins = λ op. back.coins op ∙ elim (Bool-cases (spends t.tx.vin op)) [
                  | inl hit ↦
                      let (c, e) = spent_coin_of u t.tx.vin op all hit in
                      rw hit (there op c (known_of_unspent u op c e) ∙ sym e)
                  | inr miss ↦ rw miss (gone op (rw (h, miss) refl))
                ];
                kept = λ op c q. back.kept op c (still op c q);
              }
        ]
      ]

  -- A plain transaction whose outputs are new, and whose inputs are coins that can be spent unless
  -- it is a coinbase or an internal contract transaction: it is applied without an error, then
  -- reverted without one, and every outpoint has the coin it had before, or none as before.
  pub revert_tx-apply_tx :
      (t : TypedTx) (height : ℕ) (u : UtxoSet)
      → All (IsPlain view) t.tx.vout
      → IsFresh view t u
      → IsCovered t u
      → (applied : UtxoSet) × (reverted : UtxoSet) × (apply_tx view t height u ≡ ok applied)
        × (revert_tx view t applied ≡ ok reverted)
        × ((op : OutPoint) → unspent reverted op ≡ unspent u op)
  revert_tx-apply_tx t height u plain fresh inputs =
      let done : Transfers view t height u = apply_tx-Transfers view t height u plain fresh in
      let back : Reverted t u done.next =
        revert_tx-Reverted t height u done.next plain fresh inputs done (λ op. refl)
          (λ op c q. q) in
      (done.next, back.reverted, done.returns, back.reverts, back.coins)
