-- ===== src/Chain/UtxoSet/Coins/Unspend.antt =====
-- What the reverting of a transaction does to the coins.
use boxd.Prelude.{
  ℕ, suc, ◌≡◌, refl, sym, ap, ◌∙◌, inl, inr, Bool, true, false, ◌||◌, Option, none, some, List, [],
  ◌∷◌, All, if◌then◌else◌, Bool-cases, Option-cases,
}
use boxd.Prelude.Result.{ok}
use boxd.Types.Block.{TypedTx}
use boxd.Types.OutPointKey.{out_point_equal→eq}
use boxd.Types.Transaction.{is_contract_type, OutPoint, TxIn, TxOut, out_point_equal}
use boxd.Types.Utxo.{un_spend, UtxoWrap}
use boxd.Chain.UtxoSet.{UtxoSet, View, find_utxo, put_utxo}
use boxd.Chain.UtxoSet.Coins.{
  Coin, coin, coin_of, unspent_of, unspent, known, created, find_utxo-put_utxo_same,
  find_utxo-put_utxo_other,
}
use boxd.Chain.UtxoSet.{spend_utxo}
use boxd.Chain.UtxoSet.Revert.{spend_outputs, unspend_input, unspend_inputs}
use boxd.Chain.UtxoSet.Coins.{spends, is_spent-un_spend}
use boxd.Chain.UtxoSet.Coins.Spend.{
  unspent-spend_utxo_same, unspent-spend_utxo_other, known-spend_utxo,
}
use boxd.Chain.UtxoSet.Coins.Plain.{IsPlain, unspendable, pays, output_of}

-- An outpoint that an output makes is gone.
unfoldable pub remove : Option Coin → Option Coin → Option Coin
remove none c = c
remove (some d) c = none

-- An input of a coin that can be spent, and that no contract holds.
pub record IsFunded (u : UtxoSet) (tx_in : TxIn) : Type 0 where
  pub funds : Coin
  pub is_plain : is_contract_type tx_in.prev_out_point ≡ false
  pub is_known : known u tx_in.prev_out_point ≡ some funds

unspent_of-un_spend : (w : UtxoWrap) → unspent_of (some (un_spend w)) ≡ coin_of (some w)
unfolding unspent_of coin_of coin un_spend
unspent_of-un_spend w = rw (is_spent-un_spend w) refl

coin_of-un_spend : (w : UtxoWrap) → coin_of (some (un_spend w)) ≡ coin_of (some w)
unfolding coin_of coin un_spend
coin_of-un_spend w = refl

none_known : (c : Coin) → coin_of none ≡ some c → ⊥
unfolding coin_of
none_known c q = cc

-- The reverted outputs: the spendable ones among them are spent, the others stay as they are.
module _ (view : View) where
  pub spend_outputs-remove :
      (t : TypedTx) (height : ℕ) (idx : ℕ) (vouts : List TxOut) (u : UtxoSet) (op : OutPoint)
      → All (IsPlain view) vouts
      → unspent (spend_outputs t.hash idx vouts u) op
        ≡ remove (created t.hash idx vouts height op) (unspent u op)
  unfolding spend_outputs created remove
  spend_outputs-remove t height idx [] u op plain = refl
  spend_outputs-remove t height idx (vout ∷ vouts) u op plain = elim plain.0 [
    | unspendable h ↦ rw h (spend_outputs-remove t height (suc idx) vouts u op plain.1)
    | pays addr h hc he ha ↦
        rw (h, hc)
          (spend_outputs-remove t height (suc idx) vouts (spend_utxo (output_of t idx) u) op plain.1
            ∙ elim (Bool-cases (out_point_equal (output_of t idx) op)) [
              | inl hit ↦
                  rw (hit, unspent-spend_utxo_same (output_of t idx) op u hit)
                    (remove_none (created t.hash (suc idx) vouts height op))
              | inr miss ↦ rw (miss, unspent-spend_utxo_other (output_of t idx) op u miss) refl
            ])
  ]
    where
      remove_none : (c : Option Coin) → remove c none ≡ none
      remove_none none = refl
      remove_none (some d) = refl

  pub known-spend_outputs :
      (t : TypedTx) (idx : ℕ) (vouts : List TxOut) (u : UtxoSet) (op : OutPoint) (c : Coin)
      → All (IsPlain view) vouts
      → known u op ≡ some c
      → known (spend_outputs t.hash idx vouts u) op ≡ some c
  unfolding spend_outputs
  known-spend_outputs t idx [] u op c plain e = e
  known-spend_outputs t idx (vout ∷ vouts) u op c plain e = elim plain.0 [
    | unspendable h ↦ rw h (known-spend_outputs t (suc idx) vouts u op c plain.1 e)
    | pays addr h hc he ha ↦
        rw (h, hc)
          (known-spend_outputs t (suc idx) vouts (spend_utxo (output_of t idx) u) op c plain.1
            (known-spend_utxo (output_of t idx) op u c e))
  ]

  -- The entry that is known at an outpoint.
  entry_at :
      (u : UtxoSet) (op : OutPoint) (c : Coin)
      → known u op ≡ some c
      → (w : UtxoWrap) × (find_utxo u op ≡ some w) × (coin_of (some w) ≡ some c)
  unfolding known
  entry_at u op c e = elim (Option-cases (find_utxo u op)) [
    | inl h ↦ absurd (none_known c (ap coin_of (sym h) ∙ e))
    | inr (w, h) ↦ (w, h, ap coin_of (sym h) ∙ e)
  ]

  unspend_input-present :
      (k : OutPoint) (u : UtxoSet) (w : UtxoWrap)
      → is_contract_type k ≡ false
      → find_utxo u k ≡ some w
      → unspend_input view k u ≡ ok (put_utxo u k (un_spend w))
  unfolding unspend_input
  unspend_input-present k u w h e = rw h (rw e refl)

  unspend_inputs-next :
      (tx_in : TxIn) (vin : List TxIn) (u next : UtxoSet)
      → unspend_input view tx_in.prev_out_point u ≡ ok next
      → unspend_inputs view (tx_in ∷ vin) u ≡ unspend_inputs view vin next
  unfolding unspend_inputs
  unspend_inputs-next tx_in vin u next e = rw e refl

  known-unspend :
      (u : UtxoSet) (k op : OutPoint) (w : UtxoWrap)
      → find_utxo u k ≡ some w
      → known (put_utxo u k (un_spend w)) op ≡ known u op
  unfolding known
  known-unspend u k op w e = elim (Bool-cases (out_point_equal k op)) [
    | inr miss ↦ ap coin_of (find_utxo-put_utxo_other u k op (un_spend w) miss)
    | inl hit ↦
        let same : find_utxo u op ≡ some w =
          ap (find_utxo u) (sym (out_point_equal→eq k op hit)) ∙ e in
        ap coin_of (find_utxo-put_utxo_same u k op (un_spend w) hit)
        ∙ coin_of-un_spend w
        ∙ ap coin_of (sym same)
  ]

  unspent-unspend :
      (u : UtxoSet) (k op : OutPoint) (w : UtxoWrap)
      → find_utxo u k ≡ some w
      → unspent (put_utxo u k (un_spend w)) op
        ≡ (if out_point_equal k op then known u op else unspent u op)
  unfolding known unspent
  unspent-unspend u k op w e = elim (Bool-cases (out_point_equal k op)) [
    | inr miss ↦ rw miss (ap unspent_of (find_utxo-put_utxo_other u k op (un_spend w) miss))
    | inl hit ↦
        let same : find_utxo u op ≡ some w =
          ap (find_utxo u) (sym (out_point_equal→eq k op hit)) ∙ e in
        rw hit (
          ap unspent_of (find_utxo-put_utxo_same u k op (un_spend w) hit)
          ∙ unspent_of-un_spend w
          ∙ ap coin_of (sym same))
  ]

  pub record Restores (vin : List TxIn) (u : UtxoSet) : Type 0 where
    pub next : UtxoSet
    pub returns : unspend_inputs view vin u ≡ ok next
    pub coins :
        (op : OutPoint) → unspent next op ≡ (if spends vin op then known u op else unspent u op)
    pub kept : (op : OutPoint) (c : Coin) → known u op ≡ some c → known next op ≡ some c

  still-IsFunded :
      (u v : UtxoSet) (vin : List TxIn)
      → ((op : OutPoint) → known v op ≡ known u op)
      → All (IsFunded u) vin
      → All (IsFunded v) vin
  still-IsFunded u v [] same all = tt
  still-IsFunded u v (tx_in ∷ vin) same all = (
    record {
      funds = all.0.funds;
      is_plain = all.0.is_plain;
      is_known = same tx_in.prev_out_point ∙ all.0.is_known;
    },
    still-IsFunded u v vin same all.1,
  )

  -- Inputs whose entries are in the set, spent or not, can be spent again.
  pub unspend_inputs-Restores :
      (vin : List TxIn) (u : UtxoSet) → All (IsFunded u) vin → Restores vin u
  unfolding unspend_inputs spends
  unspend_inputs-Restores [] u all = record {
    next = u;
    returns = refl;
    coins = λ op. refl;
    kept = λ op c q. q;
  }
  unspend_inputs-Restores (tx_in ∷ vin) u all =
      let k = tx_in.prev_out_point in
      let (w, there, same) = entry_at u k all.0.funds all.0.is_known in
      let one = put_utxo u k (un_spend w) in
      let rest : Restores vin one =
        unspend_inputs-Restores vin one
          (still-IsFunded u one vin (λ op. known-unspend u k op w there) all.1) in
      record {
        next = rest.next;
        returns =
            unspend_inputs-next tx_in vin u one (unspend_input-present k u w all.0.is_plain there)
            ∙ rest.returns;
        kept = λ op c q. rest.kept op c (known-unspend u k op w there ∙ q);
        coins = λ op.
            rest.coins op
            ∙ rw (known-unspend u k op w there, unspent-unspend u k op w there)
                (either (out_point_equal k op) (spends vin op) (known u op) (unspent u op));
      }
    where
      either :
          (a b : Bool) (x y : Option Coin)
          → (if b then x else if a then x else y) ≡ (if a || b then x else y)
      either true true x y = refl
      either true false x y = refl
      either false b x y = refl
