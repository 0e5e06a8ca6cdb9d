-- ===== src/Chain/UtxoSet/Coins/Plain.antt =====
-- Applying the outputs of a plain payment, as coins that are added.
use boxd.Prelude.{
  and_false, ℕ, suc, ◌≤◌, ◌≡◌, refl, sym, ap, ◌∙◌, inl, inr, true, false, not, Option, none, some,
  List, [], ◌∷◌, ◌++◌, append_assoc, length, length-append, get_elem?, get_elem?-append, All, ne→==,
  arith, Bool-cases,
}
use boxd.Prelude.Result.{Result, ok}
use boxd.Chain.Error.{ChainError}
use boxd.Script.Address.{pub_key_hash, extract_address}
use boxd.Script.Standard.{is_op_return_script, is_contract_pubkey}
use boxd.Types.Block.{TypedTx}
use boxd.Types.OutPointKey.{out_point_equal→eq}
use boxd.Types.Transaction.{OutPoint, TxOut, out_point_equal}
use boxd.Types.Utxo.{UtxoWrap, is_spent, new_utxo_wrap}
use boxd.Chain.UtxoSet.{UtxoSet, View, hash160, find_utxo, put_utxo, mark_normal}
use boxd.Chain.UtxoSet.Apply.{apply_common, apply_utxo, skip_existing, apply_outputs}
use boxd.Chain.UtxoSet.Coins.{
  Coin, coin, coin_of, unspent_of, unspent, known, created, find_utxo-put_utxo_same,
  find_utxo-put_utxo_other, find_utxo-mark_normal,
}

-- An output that nothing can spend, or one to an address that is not a contract's.
pub data IsPlain (view : View) (vout : TxOut) : Type 0 where
  unspendable : is_op_return_script vout.script_pub_key ≡ true → IsPlain view vout
  pays :
      (addr : List ℕ)
      → is_op_return_script vout.script_pub_key ≡ false
      → is_contract_pubkey vout.script_pub_key ≡ false
      → extract_address vout.script_pub_key ≡ ok (pub_key_hash addr)
      → view.is_contract_addr addr ≡ false
      → IsPlain view vout

abbrev pub output_of : TypedTx → ℕ → OutPoint
output_of t idx = record { hash = t.hash; index = idx }

-- A coin that is made comes before one that was there.
unfoldable pub or_else : Option Coin → Option Coin → Option Coin
or_else none c = c
or_else (some d) c = some d

-- The entry that an output adds.
abbrev entry_of : TxOut → ℕ → UtxoWrap
entry_of vout height = new_utxo_wrap vout.value vout.script_pub_key height

abbrev with_output : TypedTx → TxOut → ℕ → ℕ → UtxoSet → UtxoSet
with_output t vout idx height u =
    mark_normal t.kind (output_of t idx) (put_utxo u (output_of t idx) (entry_of vout height))

find-with_output_same :
    (t : TypedTx) (vout : TxOut) (idx height : ℕ) (u : UtxoSet) (op : OutPoint)
    → out_point_equal (output_of t idx) op ≡ true
    → find_utxo (with_output t vout idx height u) op ≡ some (entry_of vout height)
find-with_output_same t vout idx height u op e =
    find_utxo-mark_normal t.kind (output_of t idx) op
      (put_utxo u (output_of t idx) (entry_of vout height))
    ∙ find_utxo-put_utxo_same u (output_of t idx) op (entry_of vout height) e

find-with_output_other :
    (t : TypedTx) (vout : TxOut) (idx height : ℕ) (u : UtxoSet) (op : OutPoint)
    → out_point_equal (output_of t idx) op ≡ false
    → find_utxo (with_output t vout idx height u) op ≡ find_utxo u op
find-with_output_other t vout idx height u op e =
    find_utxo-mark_normal t.kind (output_of t idx) op
      (put_utxo u (output_of t idx) (entry_of vout height))
    ∙ find_utxo-put_utxo_other u (output_of t idx) op (entry_of vout height) e

unspent_of-entry_of :
    (vout : TxOut) (height : ℕ)
    → unspent_of (some (entry_of vout height))
      ≡ some (record { value = vout.value; script = vout.script_pub_key; height = height })
unfolding unspent_of coin is_spent new_utxo_wrap
unspent_of-entry_of vout height = refl

output_of-other :
    (t : TypedTx) (i j : ℕ) → suc i ≤ j → out_point_equal (output_of t i) (output_of t j) ≡ false
unfolding out_point_equal
output_of-other t i j h = rw (ne→== i j (λ e. omega arith)) refl

output_of-other_back :
    (t : TypedTx) (i j : ℕ) → suc i ≤ j → out_point_equal (output_of t j) (output_of t i) ≡ false
unfolding out_point_equal
output_of-other_back t i j h = rw (ne→== j i (λ e. omega arith)) refl

-- Outputs of other outpoints make no coin at this one.
created-elsewhere :
    (t : TypedTx) (vouts : List TxOut) (idx height : ℕ) (op : OutPoint)
    → ((j : ℕ) → idx ≤ j → out_point_equal (output_of t j) op ≡ false)
    → created t.hash idx vouts height op ≡ none
unfolding created
created-elsewhere t [] idx height op h = refl
created-elsewhere t (vout ∷ vouts) idx height op h =
    rw (h idx (omega arith), and_false (not (is_op_return_script vout.script_pub_key)))
      (created-elsewhere t vouts (suc idx) height op (λ j le. h j (omega arith)))

known_of-none :
    (u : UtxoSet) (op : OutPoint) (c : Coin) → find_utxo u op ≡ none → known u op ≡ some c → ⊥
unfolding known coin_of
known_of-none u op c h e = absurd (clash (ap coin_of (sym h) ∙ e))
  where
    clash : coin_of none ≡ some c → ⊥
    clash q = cc

with_output-kept :
    (t : TypedTx) (vout : TxOut) (idx height : ℕ) (u : UtxoSet) (op : OutPoint) (c : Coin)
    → find_utxo u (output_of t idx) ≡ none
    → known u op ≡ some c
    → known (with_output t vout idx height u) op ≡ some c
unfolding known
with_output-kept t vout idx height u op c absent e =
    elim (Bool-cases (out_point_equal (output_of t idx) op)) [
      | inr miss ↦ ap coin_of (find-with_output_other t vout idx height u op miss) ∙ e
      | inl hit ↦
          let same : find_utxo u op ≡ none =
            ap (find_utxo u) (sym (out_point_equal→eq (output_of t idx) op hit)) ∙ absent in
          absurd (known_of-none u op c same e)
    ]

-- What a run of the outputs does: it ends well, with the coins added and every entry kept.
pub record AddsCoins (t : TypedTx) (idx : ℕ) (vouts : List TxOut) (height : ℕ) (u : UtxoSet)
    (r : Result ChainError UtxoSet) : Type 0 where
  pub next : UtxoSet
  pub returns : r ≡ ok next
  pub coins :
      (op : OutPoint)
      → unspent next op ≡ or_else (created t.hash idx vouts height op) (unspent u op)
  pub kept : (op : OutPoint) (c : Coin) → known u op ≡ some c → known next op ≡ some c

-- The coins of one more output, before those of the others.
created-next :
    (t : TypedTx) (vout : TxOut) (vouts : List TxOut) (idx height : ℕ) (u : UtxoSet) (op : OutPoint)
    → is_op_return_script vout.script_pub_key ≡ false
    → or_else
        (created t.hash (suc idx) vouts height op)
        (unspent (with_output t vout idx height u) op)
      ≡ or_else (created t.hash idx (vout ∷ vouts) height op) (unspent u op)
unfolding unspent created or_else
created-next t vout vouts idx height u op h =
    elim (Bool-cases (out_point_equal (output_of t idx) op)) [
      | inr miss ↦ rw (h, miss, find-with_output_other t vout idx height u op miss) refl
      | inl hit ↦
          rw
            (
              h,
              hit,
              find-with_output_same t vout idx height u op hit,
              unspent_of-entry_of vout height,
            )
            (rw
              (created-elsewhere t vouts (suc idx) height op (λ j le.
                ap (λ k. out_point_equal (output_of t j) k)
                  (sym (out_point_equal→eq (output_of t idx) op hit))
                ∙ output_of-other_back t idx j le))
              refl)
    ]

module _ (view : View) where
  apply_common-pays :
      (t : TypedTx) (vout : TxOut) (idx height : ℕ) (u : UtxoSet) (addr : List ℕ)
      → extract_address vout.script_pub_key ≡ ok (pub_key_hash addr)
      → view.is_contract_addr addr ≡ false
      → find_utxo u (output_of t idx) ≡ none
      → apply_common view t vout idx height u
        ≡ ok (
            mark_normal t.kind
              (output_of t idx)
              (put_utxo u (output_of t idx) (new_utxo_wrap vout.value vout.script_pub_key height)))
  unfolding hash160 apply_common mark_normal
  apply_common-pays t vout idx height u addr he hc hf = rw (apply_common, he, hc, hf) refl

  apply_utxo-common :
      (t : TypedTx) (vout : TxOut) (idx height : ℕ) (u : UtxoSet)
      → get_elem? t.tx.vout idx ≡ some vout
      → is_contract_pubkey vout.script_pub_key ≡ false
      → apply_utxo view t idx height u ≡ apply_common view t vout idx height u
  unfolding apply_utxo apply_common
  apply_utxo-common t vout idx height u hg hc = rw (apply_utxo, hg, hc) refl

  apply_outputs-unspendable :
      (t : TypedTx) (vout : TxOut) (vouts : List TxOut) (idx height : ℕ) (u : UtxoSet)
      → is_op_return_script vout.script_pub_key ≡ true
      → apply_outputs view t idx (vout ∷ vouts) height u
        ≡ apply_outputs view t (suc idx) vouts height u
  unfolding apply_outputs
  apply_outputs-unspendable t vout vouts idx height u h = rw h refl

  apply_outputs-added :
      (t : TypedTx) (vout : TxOut) (vouts : List TxOut) (idx height : ℕ) (u next : UtxoSet)
      → is_op_return_script vout.script_pub_key ≡ false
      → apply_utxo view t idx height u ≡ ok next
      → apply_outputs view t idx (vout ∷ vouts) height u
        ≡ apply_outputs view t (suc idx) vouts height next
  unfolding apply_outputs skip_existing
  apply_outputs-added t vout vouts idx height u next h e = rw h (rw e refl)

  keeps_going :
      (t : TypedTx) (vout : TxOut) (vouts : List TxOut) (idx height : ℕ) (u : UtxoSet)
      → is_op_return_script vout.script_pub_key ≡ false
      → find_utxo u (output_of t idx) ≡ none
      → apply_utxo view t idx height u ≡ ok (with_output t vout idx height u)
      → AddsCoins t
          (suc idx)
          vouts
          height
          (with_output t vout idx height u)
          (apply_outputs view t (suc idx) vouts height (with_output t vout idx height u))
      → AddsCoins t idx (vout ∷ vouts) height u (apply_outputs view t idx (vout ∷ vouts) height u)
  keeps_going t vout vouts idx height u h absent e rest = record {
    next = rest.next;
    returns =
        apply_outputs-added t vout vouts idx height u (with_output t vout idx height u) h e
        ∙ rest.returns;
    coins = λ op. rest.coins op ∙ created-next t vout vouts idx height u op h;
    kept = λ op c q. rest.kept op c (with_output-kept t vout idx height u op c absent q);
  }

  skips :
      (t : TypedTx) (vout : TxOut) (vouts : List TxOut) (idx height : ℕ) (u : UtxoSet)
      → is_op_return_script vout.script_pub_key ≡ true
      → AddsCoins t (suc idx) vouts height u (apply_outputs view t (suc idx) vouts height u)
      → AddsCoins t idx (vout ∷ vouts) height u (apply_outputs view t idx (vout ∷ vouts) height u)
  unfolding created
  skips t vout vouts idx height u h rest = record {
    next = rest.next;
    returns = apply_outputs-unspendable t vout vouts idx height u h ∙ rest.returns;
    coins = λ op. rw h (rest.coins op);
    kept = rest.kept;
  }

  -- Plain outputs of a transaction whose outpoints are new to the set.
  pub apply_outputs-AddsCoins :
      (t : TypedTx) (height : ℕ) (done vouts : List TxOut) (idx : ℕ) (u : UtxoSet)
      → t.tx.vout ≡ done ++ vouts
      → idx ≡ length done
      → All (IsPlain view) vouts
      → ((i : ℕ) → idx ≤ i → find_utxo u (output_of t i) ≡ none)
      → AddsCoins t idx vouts height u (apply_outputs view t idx vouts height u)
  unfolding created or_else apply_outputs
  apply_outputs-AddsCoins t height done [] idx u e n plain fresh = record {
    next = u;
    returns = refl;
    coins = λ op. refl;
    kept = λ op c q. q;
  }
  apply_outputs-AddsCoins t height done (vout ∷ vouts) idx u e n plain fresh =
      let e' : t.tx.vout ≡ (done ++ (vout ∷ [])) ++ vouts =
        e ∙ sym (append_assoc done (vout ∷ []) vouts) in
      let n' : suc idx ≡ length (done ++ (vout ∷ [])) =
        omega (arith, n, length-append done (vout ∷ [])) in
      elim plain.0 [
        | unspendable h ↦ skips t vout vouts idx height u h (
            apply_outputs-AddsCoins t height (done ++ (vout ∷ [])) vouts (suc idx) u e' n' plain.1
              (λ i le. fresh i (omega arith)))
        | pays addr h hc he ha ↦
            let at : get_elem? t.tx.vout idx ≡ some vout =
              ap (λ l. get_elem? l idx) e ∙ get_elem?-append done vout vouts idx n in
            let absent = fresh idx (omega arith) in
            keeps_going t vout vouts idx height u h absent
              (apply_utxo-common t vout idx height u at hc
                ∙ apply_common-pays t vout idx height u addr he ha absent)
              (apply_outputs-AddsCoins t height (done ++ (vout ∷ [])) vouts (suc idx)
                (with_output t vout idx height u) e' n' plain.1
                (λ i le.
                  find-with_output_other t vout idx height u (output_of t i)
                    (output_of-other t idx i le)
                  ∙ fresh i (omega arith)))
      ]
