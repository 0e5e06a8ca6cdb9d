-- ===== src/Lib.antt =====
-- boxd: a node of a blockchain with unspent transaction outputs, scripts that lock them, and a
-- virtual machine for contracts. This library models the code that decides who may spend an output
-- and the code that stores outputs.
--
-- The parts and their files:
--   Prelude        shared helpers: results, Boolean tests, lists, bits, machine words, and `Ends`,
--                  the results that are a value or an error
--   Types          core/types/transaction.go: transactions and their constructors,
--                  in Transaction; core/types/utxo.go in Utxo: an entry of the unspent outputs;
--                  core/types/block.go in Block, with the types of transactions; OutPointKey:
--                  outpoints as keys of maps
--   Script         script/: Opcode (opcode.go), Error (error.go), Stack (stack.go) and script.go in
--                  Builder (AddOpCode, AddOperand and the scripts that are built with them), Parser
--                  (parseNextOp, parse), Standard (the recognisers), Signature (verifySig,
--                  CalcTxHashForSig), MultiSig (the multisignature branch of execOp), Interp
--                  (execOp, evaluate, Validate), Reader (getNthOp), Items (scripts as lists of
--                  opcodes and operands), Contract (the readers of contract scripts), Address
--                  (PubkType, ExtractAddress, split addresses); token.go in Token
--   Chain          core/chain/compress.go in Compress: Vlq, Amount, PkScript and TxOut; the stored
--                  form of an entry, of core/chain/utxoset.go, in Utxo, and the set in UtxoSet, with
--                  Apply (applyTx, ApplyBlock), Revert (RevertTx, RevertBlock) and Coins, which is
--                  the set without the order and the flags of its entries; core/chain/common.go in
--                  Common; core/chain/validate.go in Validate: the preliminary checks, Inputs
--                  (ValidateTxInputs, CheckTxScripts), Block (validateBlock, validateBlockScripts) and Pool
--                  (scriptValidator)
--   TxLogic        core/txlogic/tx_utils.go in Kind: ParseTxType, GetTxType, IsStandardTx
--   Util           util/merkle.go in Merkle
--   Storage        storage/memdb in Memdb: the database, tables, batches and transactions;
--                  storage/key in Key: keys as paths
--
-- `Validate` concatenates the unlocking and the locking script, and `evaluate` runs `parseNextOp`
-- and `execOp` in turn until the script's end. Compression uses the opcodes of the scripts only.
--
-- A block is checked by `validate_block`, which reads the types of its transactions from `Kind`
-- and their root from `Merkle`; `validate_tx_inputs` reads the set of unspent outputs, `Pool`
-- checks the scripts, and `apply_block` then changes the set, which `revert_block` undoes. The set
-- reads the type that `IsStandardTx` left in a transaction where the code calls `GetTxType`, which
-- returns that type once it is set; it decides only which outpoints are remembered as normal ones.
-- The workers of `Pool` and its loop take steps in any order; a run is a sequence of steps.
--
-- Byte slices are lists of native numbers; machine integers are native numbers with the wrap
-- written out, signed ones as their bit patterns. An error is a value. An index or a slice out of
-- range is `panic` in the results of the interpreter, of the readers of scripts and of the coding
-- of outputs; `parse_next_op` returns it as the `Fault` `out_of_range`, beside the errors. The
-- capacity of a slice is taken for its length. Where the code looks at fixed places of a script
-- behind a test of its length (the recognisers of scripts, the forms of compression), at the
-- Merkle array under the bounds of its loop and at the stack under its own test, the model reads a
-- default. The operand stack has its top at the head of the list. Loops run on accessibility where
-- the code divides, and on fuel elsewhere: the script's length for `evaluate` and `parse`, since
-- each opcode moves the counter, and the key count for the multisignature loop, since each round
-- takes a key.
--
-- The signature scheme, the hashes and the encoding of transactions are the fields of `Crypto` in
-- Script/Signature: they stand on packages outside the repository. What the set reads of the state
-- of the contracts and of the stored blocks is `View` in Chain/UtxoSet, the logarithm and the
-- double hash of the Merkle tree are `Hashing`, and the comparison of token names and the powers
-- of ten are parameters of Chain/Validate/Inputs, and so is path.Clean of Storage/Key: the virtual
-- machine and its state are copies of another project, and are not modelled. Logging is left out.
-- Networking, storage on disk, RPC and the command line are input and output and are not modelled.
pub mod Prelude
pub mod TxLogic
pub mod Util
pub mod Storage
pub mod Types
pub mod Script
pub mod Chain
