-- ===== src/TxLogic/Kind/Cached.antt =====
-- The type that the parser keeps in the transaction, and what a second call reads.
use boxd.Prelude.{
  subst, eq→==, ℕ, suc, ◌≡◌, refl, sym, ap, ◌∙◌, inl, inr, ◌⊎◌, Bool, true, false, not, Option,
  List, [], ◌∷◌, ◌==◌, Bool-cases,
}
use boxd.Prelude.Ends.{ok-bind, ok-injective}
use boxd.Prelude.Result.{ok}
use boxd.Chain.Error.{ChainError}
use boxd.Script.Address.{pubk_type, contract_pubk, token_transfer_pubk}
use boxd.Types.Block.{unknown_tx, contract_tx, pay_to_pubk_tx, error_tx}
use boxd.Types.Transaction.{TxOut}
use boxd.TxLogic.Kind.{
  Round, stop, go_on, Parsed, round, typed_round, untyped_round, parse_loop, parse_tx_type,
  get_tx_type, is_standard_tx,
}

-- The parser refused the transaction, or the tag it left is the type it returned.
abbrev IsKept : Parsed → Type 0
IsKept p = (p.kind ≡ error_tx) ⊎ ((p.tag ≡ p.kind) × ((p.tag == unknown_tx) ≡ false))

module _ (statedb : Option (List ℕ → Bool)) where
  parse_loop-IsKept :
      (vout : List TxOut) (tag i idx op_returns : ℕ) (p : Parsed)
      → parse_loop statedb tag i idx op_returns vout ≡ ok p
      → IsKept p
  unfolding parse_loop
  parse_loop-IsKept [] tag i idx op_returns p e = elim (Bool-cases (tag == unknown_tx)) [
    | inl h ↦
        let same : record { kind = pay_to_pubk_tx; idx = 0; tag = pay_to_pubk_tx } ≡ p =
          ok-injective {E = ChainError} _ p (sym (rw h refl) ∙ e) in
        subst IsKept same (inr (refl, refl))
    | inr h ↦
        let same : record { kind = tag; idx = idx; tag = tag } ≡ p =
          ok-injective {E = ChainError} _ p (sym (rw h refl) ∙ e) in
        subst IsKept same (inr (refl, h))
  ]
  parse_loop-IsKept (tx_out ∷ vout) tag i idx op_returns p e =
      let (next, done, rest) =
        ok-bind (round statedb tag i idx op_returns tx_out.script_pub_key) _ p e in
      behind next rest (λ new_tag new_idx new_op_returns.
        parse_loop-IsKept vout new_tag (suc i) new_idx new_op_returns p)
    where
      behind :
          (next : Round)
          → (elim next [
            | stop left ↦ ok (record { kind = error_tx; idx = 0; tag = left })
            | go_on new_tag new_idx new_op_returns ↦
                parse_loop statedb new_tag (suc i) new_idx new_op_returns vout
          ])
            ≡ ok p
          → ((new_tag new_idx new_op_returns : ℕ)
              → parse_loop statedb new_tag (suc i) new_idx new_op_returns vout ≡ ok p
              → IsKept p)
          → IsKept p
      behind (stop left) q more =
          subst IsKept
            (ok-injective {E = ChainError} (record { kind = error_tx; idx = 0; tag = left }) p q)
            (inl refl)
      behind (go_on new_tag new_idx new_op_returns) q more = more new_tag new_idx new_op_returns q

  -- A parsed transaction that is standard.
  standard_of :
      (p : Parsed) (tag : ℕ)
      → IsKept p
      → not (p.kind == error_tx) ≡ true
      → p.tag ≡ tag
      → (p.kind ≡ tag) × ((tag == unknown_tx) ≡ false) × ((tag == error_tx) ≡ false)
  standard_of p tag (inl refused) e t = absurd (cc (eq→== p.kind error_tx refused, e))
  standard_of p tag (inr (same, h)) e t = (
    sym same ∙ t,
    ap (λ (k : ℕ). k == unknown_tx) (sym t) ∙ h,
    ap (λ (k : ℕ). k == error_tx) (sym (sym same ∙ t)) ∙ not_true (p.kind == error_tx) e,
  )
    where
      not_true : (b : Bool) → not b ≡ true → b ≡ false
      not_true true q = absurd cc
      not_true false q = refl

  -- When a transaction of unknown type is found standard, the type that is kept in it is the one
  -- that was found: a second call finds it standard too, and reading the type gives, with the tag
  -- and without it, the same.
  pub is_standard_tx-kept :
      (vout : List TxOut) (tag : ℕ)
      → is_standard_tx statedb unknown_tx vout ≡ ok (true, tag)
      → (is_standard_tx statedb tag vout ≡ ok (true, tag))
        × (get_tx_type statedb tag vout ≡ get_tx_type statedb unknown_tx vout)
  unfolding is_standard_tx get_tx_type parse_tx_type
  is_standard_tx-kept vout tag e =
      let (p, parsed, last) = ok-bind (parse_loop statedb unknown_tx 0 0 0 vout) _ (true, tag) e in
      let found : ◌≡◌ {A = Bool × ℕ} (not (p.kind == error_tx), p.tag) (true, tag) =
        ok-injective {E = ChainError} _ (true, tag) last in
      let (same, known, fine) =
        standard_of p tag (parse_loop-IsKept vout unknown_tx 0 0 0 p parsed)
          (ap (λ (x : Bool × ℕ). x.0) found) (ap (λ (x : Bool × ℕ). x.1) found) in
      let left : p.tag ≡ tag = ap (λ (x : Bool × ℕ). x.1) found in
      rw (known, fine) (refl, rw parsed (rw (same, left) refl))

  untyped_round-contract :
      (i idx op_returns : ℕ) (script : List ℕ)
      → pubk_type script ≡ contract_pubk
      → untyped_round statedb i idx op_returns script ≡ ok (go_on contract_tx i op_returns)
  unfolding untyped_round
  untyped_round-contract i idx op_returns script h = rw (untyped_round, h) refl

  typed_round-token :
      (idx op_returns : ℕ) (script : List ℕ)
      → pubk_type script ≡ token_transfer_pubk
      → typed_round statedb contract_tx idx op_returns script ≡ ok (stop contract_tx)
  unfolding typed_round
  typed_round-token idx op_returns script h = rw (typed_round, h) refl

  -- An output of a contract and a token transfer behind it: the first call says that the
  -- transaction is not standard and leaves the type of the contract, by which the second call says
  -- that it is.
  pub is_standard_tx-twice :
      (out1 out2 : TxOut) (vout : List TxOut)
      → pubk_type out1.script_pub_key ≡ contract_pubk
      → pubk_type out2.script_pub_key ≡ token_transfer_pubk
      → (is_standard_tx statedb unknown_tx (out1 ∷ out2 ∷ vout) ≡ ok (false, contract_tx))
        × (is_standard_tx statedb contract_tx (out1 ∷ out2 ∷ vout) ≡ ok (true, contract_tx))
  unfolding is_standard_tx parse_tx_type parse_loop round
  is_standard_tx-twice out1 out2 vout h1 h2 = (
    rw (untyped_round-contract 0 0 0 out1.script_pub_key h1)
        (rw (typed_round-token 0 0 out2.script_pub_key h2) refl),
    refl,
  )
