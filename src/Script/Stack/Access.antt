-- ===== src/Script/Stack/Access.antt =====
-- `topN` and `int` of script/stack.go on stacks shorter than 2 ^ 63.
use boxd.Prelude.{
  ℕ, ◌+◌, ◌-◌, ◌%◌, ◌^◌, ◌≤◌, ◌<◌, ◌≡◌, true, false, [], length, get_or, lt→ltb, le→ltb, arith,
}
use boxd.Prelude.Words.{int_lt}
use boxd.Prelude.Result.{ok}
use boxd.Script.Bytes.{big_of_bytes}
use boxd.Script.Stack.{Operand, Stack, operand_int, size, top_n}

-- Two int64 that are not negative compare as their bit patterns.
pub int_lt-true : (a b : ℕ) → a < b → b < 2 ^ 63 → int_lt a b ≡ true
int_lt-true a b h s = lt→ltb ((a + 2 ^ 63) % 2 ^ 64) ((b + 2 ^ 63) % 2 ^ 64) (omega arith)

pub int_lt-false : (a b : ℕ) → b ≤ a → a < 2 ^ 63 → int_lt a b ≡ false
int_lt-false a b h s = le→ltb ((a + 2 ^ 63) % 2 ^ 64) ((b + 2 ^ 63) % 2 ^ 64) (omega arith)

-- A negative int64 is below one that is not.
pub int_lt-negative : (a b : ℕ) → a < 2 ^ 63 → 2 ^ 63 ≤ b → b < 2 ^ 64 → int_lt a b ≡ false
int_lt-negative a b h lo hi = le→ltb ((a + 2 ^ 63) % 2 ^ 64) ((b + 2 ^ 63) % 2 ^ 64) (omega arith)

pub top_n-in :
    (stk : Stack) (n : ℕ)
    → 1 ≤ n
    → n ≤ length stk
    → length stk < 2 ^ 63
    → top_n stk n ≡ get_or stk (n - 1) []
unfolding top_n size
top_n-in stk n lo hi small =
    rw (int_lt-true 0 n lo (omega arith), int_lt-false (length stk) n hi small)

pub top_n-negative : (stk : Stack) (n : ℕ) → 2 ^ 63 ≤ n → n < 2 ^ 64 → top_n stk n ≡ []
unfolding top_n size
top_n-negative stk n lo hi = rw (int_lt-negative 0 n (omega arith) lo hi)

pub operand_int-ok : (o : Operand) → big_of_bytes o < 2 ^ 63 → operand_int o ≡ ok (big_of_bytes o)
unfolding operand_int
operand_int-ok o h = rw (lt→ltb (big_of_bytes o) (2 ^ 63) h)
