-- ===== src/Types/Utxo.antt =====
-- core/types/utxo.go: an output in the set of unspent outputs, with its flags. The map keeps
-- pointers; a method that changes the entry returns it.
use boxd.Prelude.{ℕ, bit_and, bit_or, Bool, List, ◌==◌, if◌then◌else◌}
use boxd.Prelude.Words.{add64}

abbrev pub spent : ℕ
spent = 1

abbrev pub modified : ℕ
modified = 2

pub record UtxoWrap : Type 0 where
  pub value : ℕ
  pub script : List ℕ
  pub height : ℕ
  pub flags : ℕ

unfoldable pub new_utxo_wrap : ℕ → List ℕ → ℕ → UtxoWrap
new_utxo_wrap value script height = record {
  value = value;
  script = script;
  height = height;
  flags = modified;
}

unfoldable pub is_modified : UtxoWrap → Bool
is_modified w = bit_and w.flags modified == modified

unfoldable pub mark_modified : UtxoWrap → UtxoWrap
mark_modified w = record w { flags = bit_or w.flags modified }

unfoldable pub is_spent : UtxoWrap → Bool
is_spent w = bit_and w.flags spent == spent

unfoldable pub spend : UtxoWrap → UtxoWrap
unfolding is_spent
spend w = if is_spent w then w else record w { flags = bit_or w.flags (bit_or spent modified) }

unfoldable pub un_spend : UtxoWrap → UtxoWrap
un_spend w = record w { flags = modified }

unfoldable pub set_value : UtxoWrap → ℕ → UtxoWrap
unfolding mark_modified
set_value w value = mark_modified (record w { value = value })

unfoldable pub add_value : UtxoWrap → ℕ → UtxoWrap
unfolding mark_modified
add_value w value = mark_modified (record w { value = add64 w.value value })

unfoldable pub set_script : UtxoWrap → List ℕ → UtxoWrap
set_script w s = record w { script = s }
