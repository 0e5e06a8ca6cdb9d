-- ===== src/Chain/Validate/Block/Scripts.antt =====
-- The scripts of a block, collected and checked by the workers.
use boxd.Prelude.{
  subst, ℕ, suc, ◌<◌, ◌≡◌, ◌⊎◌, refl, sym, ◌∙◌, inl, inr, true, false, none, some, List, [], ◌∷◌,
  ◌++◌, length, All, All-split, if◌then◌else◌, arith, Bool-cases, Option-cases,
}
use boxd.Prelude.Ends.{ok-bind, ok-unless, ok-injective}
use boxd.Prelude.Result.{Result, ok, err, panic, out_of_fuel, ◌>>=◌}
use boxd.Chain.Common.{is_internal_contract}
use boxd.Chain.Error.{ChainError, missing_tx_out, other}
use boxd.Chain.UtxoSet.{UtxoSet, find_utxo}
use boxd.Chain.Validate.Block.{script_items, item_error}
use boxd.Chain.Validate.Inputs.{ScriptItem, in_script, check_scripts_loop, check_tx_scripts}
use boxd.Chain.Validate.Pool.{Pool, new_pool, Reach, returned}
use boxd.Chain.Validate.Pool.Safety.{returned-none}
use boxd.Script.Error
use boxd.Script.Interp.{validate}
use boxd.Script.Signature.{Crypto}
use boxd.Types.Block.{TypedTx}
use boxd.Types.Transaction.{TxIn, Transaction}
use boxd.Types.Utxo.{UtxoWrap, is_spent}

module _ (crypto : Crypto) where
  abbrev IsValidated : ScriptItem → Type 0
  IsValidated it = validate crypto it.script_sig it.prev_script_pub_key it.tx it.tx_in_idx ≡ ok tt

  -- The inputs from the index `idx` on spend entries that are there and not spent, and their scripts
  -- unlock those of the entries.
  abbrev pub AreUnlocked : UtxoSet → Transaction → ℕ → List TxIn → Type 0
  AreUnlocked u tx idx [] = Unit
  AreUnlocked u tx idx (tx_in ∷ vin) =
      ((w : UtxoWrap) × (find_utxo u tx_in.prev_out_point ≡ some w)
        × (is_spent w ≡ false)
        × (validate crypto tx_in.script_sig w.script tx idx ≡ ok tt))
      × AreUnlocked u tx (suc idx) vin

  abbrev item : Transaction → ℕ → TxIn → UtxoWrap → ScriptItem
  item tx idx tx_in w = record {
    tx = tx;
    tx_in_idx = idx;
    script_sig = tx_in.script_sig;
    prev_script_pub_key = w.script;
  }

  loop-missing :
      (u : UtxoSet) (tx : Transaction) (idx : ℕ) (tx_in : TxIn) (vin : List TxIn)
      (before : List ScriptItem)
      → find_utxo u tx_in.prev_out_point ≡ none
      → check_scripts_loop crypto u tx true idx (tx_in ∷ vin) before ≡ err missing_tx_out
  unfolding check_scripts_loop
  loop-missing u tx idx tx_in vin before e = rw (check_scripts_loop, e) refl

  loop-found :
      (u : UtxoSet) (tx : Transaction) (idx : ℕ) (tx_in : TxIn) (vin : List TxIn)
      (before : List ScriptItem) (w : UtxoWrap)
      → find_utxo u tx_in.prev_out_point ≡ some w
      → check_scripts_loop crypto u tx true idx (tx_in ∷ vin) before ≡ (
          if is_spent w
          then err missing_tx_out
          else check_scripts_loop crypto u tx true
              (suc idx)
              vin
              (before ++ (item tx idx tx_in w ∷ [])))
  unfolding check_scripts_loop
  loop-found u tx idx tx_in vin before w e = rw (check_scripts_loop, e) refl

  loop-AreUnlocked :
      (u : UtxoSet) (tx : Transaction) (idx : ℕ) (vin : List TxIn) (before items : List ScriptItem)
      → check_scripts_loop crypto u tx true idx vin before ≡ ok items
      → All IsValidated items
      → All IsValidated before × AreUnlocked u tx idx vin
  unfolding check_scripts_loop
  loop-AreUnlocked u tx idx [] before items e all =
      (subst (All IsValidated) (sym (ok-injective {E = ChainError} before items e)) all, tt)
  loop-AreUnlocked u tx idx (tx_in ∷ vin) before items e all =
      elim (Option-cases (find_utxo u tx_in.prev_out_point)) [
        | inl absent ↦ absurd (cc (e, loop-missing u tx idx tx_in vin before absent))
        | inr (w, there) ↦
            let (live, run) =
              ok-unless (is_spent w) _ _ items
                (sym (loop-found u tx idx tx_in vin before w there) ∙ e) in
            let (done, rest) =
              loop-AreUnlocked u tx (suc idx) vin (before ++ (item tx idx tx_in w ∷ [])) items run
                all in
            let (old, new) = All-split IsValidated before (item tx idx tx_in w ∷ []) done in
            (old, ((w, there, live, new.0), rest))
      ]

  -- An internal contract transaction has no inputs to unlock.
  abbrev pub IsUnlocked : UtxoSet → TypedTx → Type 0
  IsUnlocked u t = (is_internal_contract t.tx ≡ true) ⊎ AreUnlocked u t.tx 0 t.tx.vin

  script_items-AreUnlocked :
      (u : UtxoSet) (txs : List TypedTx) (items : List ScriptItem)
      → script_items crypto u txs ≡ ok items
      → All IsValidated items
      → All (IsUnlocked u) txs
  unfolding script_items check_tx_scripts
  script_items-AreUnlocked u [] items e all = tt
  script_items-AreUnlocked u (t ∷ txs) items e all = elim (Bool-cases (is_internal_contract t.tx)) [
    | inl h ↦ (inl h, script_items-AreUnlocked u txs items (skipped h e) all)
    | inr h ↦
        let (mine, one, run) =
          ok-bind (check_scripts_loop crypto u t.tx true 0 t.tx.vin []) _ items (taken h e) in
        let (others, two, last) = ok-bind (script_items crypto u txs) _ items run in
        let same : mine ++ others ≡ items =
          ok-injective {E = ChainError} (mine ++ others) items last in
        let (first, rest) =
          All-split IsValidated mine others (subst (All IsValidated) (sym same) all) in
        (
          inr (loop-AreUnlocked u t.tx 0 t.tx.vin [] mine one first).1,
          script_items-AreUnlocked u txs others two rest,
        )
  ]
    where
      skipped :
          is_internal_contract t.tx ≡ true
          → script_items crypto u (t ∷ txs) ≡ ok items
          → script_items crypto u txs ≡ ok items
      skipped h = rw h (λ q. q)

      taken :
          is_internal_contract t.tx ≡ false
          → script_items crypto u (t ∷ txs) ≡ ok items
          → ◌>>=◌ {B = List ScriptItem}
              (check_scripts_loop crypto u t.tx true 0 t.tx.vin [])
              (λ mine. script_items crypto u txs >>= (λ rest. ok (mine ++ rest)))
            ≡ ok items
      taken h = rw h (λ q. q)

  passed_item :
      (it : ScriptItem) (items : List ScriptItem)
      → item_error crypto (it ∷ items) 0 ≡ none
      → IsValidated it
  unfolding item_error in_script
  passed_item it items e =
      by_result (validate crypto it.script_sig it.prev_script_pub_key it.tx it.tx_in_idx) e
    where
      by_result :
          (r : Result Error.Error (Unit {0}))
          → (elim (in_script r) [ ok _ ↦ none | err x ↦ some x | _ ↦ some other ]) ≡ none
          → r ≡ ok tt
      by_result (ok a) q = refl
      by_result (err x) q = absurd cc
      by_result panic q = absurd cc
      by_result out_of_fuel q = absurd cc

  passed_items :
      (items : List ScriptItem)
      → ((i : ℕ) → i < length items → item_error crypto items i ≡ none)
      → All IsValidated items
  unfolding item_error
  passed_items [] h = tt
  passed_items (it ∷ items) h = (
    passed_item it items (h 0 (omega arith)),
    passed_items items (λ i lt. h (suc i) (omega arith)),
  )

  -- The items of a block's transactions behind the first one, checked by any number of workers that
  -- take and finish them in any order: when the loop returns nil, each input of a transaction that is
  -- no internal contract transaction spends an entry that is there and not spent, and
  -- `script.Validate` succeeds on its script and the script of the entry.
  pub script_items-returned :
      (u : UtxoSet) (txs : List TypedTx) (items : List ScriptItem) (workers : ℕ) (p : Pool)
      → script_items crypto u txs ≡ ok items
      → Reach workers (length items) (item_error crypto items) new_pool p
      → p.main ≡ returned none
      → All (IsUnlocked u) txs
  script_items-returned u txs items workers p e r m =
      script_items-AreUnlocked u txs items e
        (passed_items items (returned-none workers (length items) (item_error crypto items) p r m))
