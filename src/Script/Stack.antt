-- ===== src/Script/Stack.antt =====
-- script/stack.go. The slice of operands is kept with its last element first, so that the top of
-- the stack is the head of the list; a nil operand is the empty one. An int is its bit pattern.
pub mod Access
use boxd.Prelude.{
  ℕ, ◌+◌, ◌-◌, ◌^◌, Bool, true, false, ◌||◌, List, [], ◌∷◌, length, get_or, ltb, ◌==◌,
  if◌then◌else◌,
}
use boxd.Prelude.Words.{int_lt, int_le}
use boxd.Prelude.Result.{Result, ok, err}
use boxd.Script.Bytes.{big_of_bytes}
use boxd.Script.Error.{Error, final_stack_empty, final_top_stack_ele_false, not_int64}

abbrev pub Operand : Type 0
Operand = List ℕ

abbrev pub Stack : Type 0
Stack = List Operand

abbrev pub operand_false : Operand
operand_false = 0 ∷ []

abbrev pub operand_true : Operand
operand_true = 1 ∷ []

-- (o Operand) int(), and int64(): a number of any length, refused from 2 ^ 63 on.
unfoldable pub operand_int : Operand → Result Error ℕ
operand_int o = if ltb (big_of_bytes o) (2 ^ 63) then ok (big_of_bytes o) else err not_int64

unfoldable pub size : Stack → ℕ
size stk = length stk

unfoldable pub empty : Stack → Bool
empty [] = true
empty (o ∷ stk) = false

unfoldable pub push : Operand → Stack → Stack
push o stk = o ∷ stk

-- The stack that `pop` leaves; what it returns is `top_n` at 1.
unfoldable pub pop : Stack → Stack
pop [] = []
pop (o ∷ stk) = stk

unfoldable pub top_n : Stack → ℕ → Operand
unfolding size
top_n stk n = if int_le n 0 || int_lt (size stk) n then [] else get_or stk (n - 1) []

unfoldable pub validate_top : Stack → Result Error (Unit {0})
unfolding empty top_n
validate_top stk =
    if empty stk
    then err final_stack_empty
    else if big_of_bytes (top_n stk 1) == 0
    then err final_top_stack_ele_false
    else ok tt
