-- ===== src/Chain/UtxoSet/Coins/Spend.antt =====
-- What spending an outpoint does to the coins.
use boxd.Prelude.{
  ℕ, ◌≡◌, refl, sym, ap, ◌∙◌, inl, inr, Bool, true, false, Option, none, some, List, [], ◌∷◌,
  if◌then◌else◌, Bool-cases, Option-cases,
}
use boxd.Types.OutPointKey.{out_point_equal→eq}
use boxd.Types.Transaction.{OutPoint, TxIn, out_point_equal}
use boxd.Types.Utxo.{UtxoWrap, spend}
use boxd.Chain.UtxoSet.{UtxoSet, find_utxo, put_utxo, mark_normal, spend_utxo, no_entry}
use boxd.Chain.UtxoSet.Coins.{
  Coin, coin_of, unspent_of, unspent, known, spends, find_utxo-put_utxo_same,
  find_utxo-put_utxo_other, find_utxo-mark_normal, is_spent-spend, coin-spend,
}
use boxd.Chain.UtxoSet.Apply.{spend_inputs}

spend_utxo-absent :
    (k : OutPoint) (u : UtxoSet)
    → find_utxo u k ≡ none
    → spend_utxo k u ≡ put_utxo u k (spend no_entry)
unfolding spend_utxo
spend_utxo-absent k u h = rw (spend_utxo, h) refl

spend_utxo-present :
    (k : OutPoint) (u : UtxoSet) (w : UtxoWrap)
    → find_utxo u k ≡ some w
    → spend_utxo k u ≡ put_utxo u k (spend w)
unfolding spend_utxo
spend_utxo-present k u w h = rw (spend_utxo, h) refl

pub spend_utxo-other :
    (k op : OutPoint) (u : UtxoSet)
    → out_point_equal k op ≡ false
    → find_utxo (spend_utxo k u) op ≡ find_utxo u op
spend_utxo-other k op u e = elim (Option-cases (find_utxo u k)) [
  | inl h ↦ rw (spend_utxo-absent k u h) (find_utxo-put_utxo_other u k op (spend no_entry) e)
  | inr (w, h) ↦ rw (spend_utxo-present k u w h) (find_utxo-put_utxo_other u k op (spend w) e)
]

pub unspent_of-spend : (w : UtxoWrap) → unspent_of (some (spend w)) ≡ none
unfolding unspent_of
unspent_of-spend w = rw (is_spent-spend w) refl

pub unspent-spend_utxo_same :
    (k op : OutPoint) (u : UtxoSet)
    → out_point_equal k op ≡ true
    → unspent (spend_utxo k u) op ≡ none
unfolding unspent
unspent-spend_utxo_same k op u e = elim (Option-cases (find_utxo u k)) [
  | inl h ↦
      rw (spend_utxo-absent k u h)
        (rw (find_utxo-put_utxo_same u k op (spend no_entry) e) (unspent_of-spend no_entry))
  | inr (w, h) ↦
      rw (spend_utxo-present k u w h)
        (rw (find_utxo-put_utxo_same u k op (spend w) e) (unspent_of-spend w))
]

pub unspent-spend_utxo_other :
    (k op : OutPoint) (u : UtxoSet)
    → out_point_equal k op ≡ false
    → unspent (spend_utxo k u) op ≡ unspent u op
unfolding unspent
unspent-spend_utxo_other k op u e = ap unspent_of (spend_utxo-other k op u e)

coin_of-spend : (w : UtxoWrap) → coin_of (some (spend w)) ≡ coin_of (some w)
unfolding coin_of
coin_of-spend w = ap some (coin-spend w)

none_known : {d : Coin} → coin_of none ≡ some d → ⊥
unfolding coin_of
none_known q = cc

-- An entry that is there keeps its coin.
pub known-spend_utxo :
    (k op : OutPoint) (u : UtxoSet) (c : Coin)
    → known u op ≡ some c
    → known (spend_utxo k u) op ≡ some c
unfolding known
known-spend_utxo k op u c e = elim (Bool-cases (out_point_equal k op)) [
  | inr other ↦ ap coin_of (spend_utxo-other k op u other) ∙ e
  | inl hit ↦
      let same : find_utxo u k ≡ find_utxo u op = ap (find_utxo u) (out_point_equal→eq k op hit) in
      elim (Option-cases (find_utxo u op)) [
        | inl h ↦ absurd (none_known (ap coin_of (sym h) ∙ e))
        | inr (w, h) ↦ rw (spend_utxo-present k u w (same ∙ h)) (
            rw (find_utxo-put_utxo_same u k op (spend w) hit)
              (coin_of-spend w ∙ ap coin_of (sym h) ∙ e))
      ]
]

unspent-mark_normal :
    (kind : ℕ) (k op : OutPoint) (u : UtxoSet) → unspent (mark_normal kind k u) op ≡ unspent u op
unfolding unspent
unspent-mark_normal kind k op u = ap unspent_of (find_utxo-mark_normal kind k op u)

known-mark_normal :
    (kind : ℕ) (k op : OutPoint) (u : UtxoSet) → known (mark_normal kind k u) op ≡ known u op
unfolding known
known-mark_normal kind k op u = ap coin_of (find_utxo-mark_normal kind k op u)

none_either : (b : Bool) → ◌≡◌ {A = Option Coin} (if b then none else none) none
none_either true = refl
none_either false = refl

-- After the inputs are spent, none of their outpoints can be spent and nothing else changes.
pub unspent-spend_inputs :
    (kind : ℕ) (vin : List TxIn) (u : UtxoSet) (op : OutPoint)
    → unspent (spend_inputs kind vin u) op ≡ (if spends vin op then none else unspent u op)
unfolding spend_inputs spends
unspent-spend_inputs kind [] u op = refl
unspent-spend_inputs kind (tx_in ∷ vin) u op =
    let k = tx_in.prev_out_point in
    let step : unspent (mark_normal kind k (spend_utxo k u)) op ≡ unspent (spend_utxo k u) op =
      unspent-mark_normal kind k op (spend_utxo k u) in
    unspent-spend_inputs kind vin (mark_normal kind k (spend_utxo k u)) op
    ∙ elim (Bool-cases (out_point_equal k op)) [
      | inl hit ↦ rw (hit, step, unspent-spend_utxo_same k op u hit) (none_either (spends vin op))
      | inr miss ↦ rw (miss, step, unspent-spend_utxo_other k op u miss) refl
    ]

pub known-spend_inputs :
    (kind : ℕ) (vin : List TxIn) (u : UtxoSet) (op : OutPoint) (c : Coin)
    → known u op ≡ some c
    → known (spend_inputs kind vin u) op ≡ some c
unfolding spend_inputs
known-spend_inputs kind [] u op c e = e
known-spend_inputs kind (tx_in ∷ vin) u op c e =
    let k = tx_in.prev_out_point in
    known-spend_inputs kind vin (mark_normal kind k (spend_utxo k u)) op c
      (known-mark_normal kind k op (spend_utxo k u) ∙ known-spend_utxo k op u c e)
