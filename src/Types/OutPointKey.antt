-- ===== src/Types/OutPointKey.antt =====
-- core/types/transaction.go: outpoints as keys of a map.
use boxd.Prelude.{
  both_true, ℕ, ◌≡◌, refl, true, bytes_equal, bytes_equal_refl, bytes_equal→eq, ◌==◌, eq→==, ==→eq,
  ap₂, List,
}
use boxd.Prelude.Assoc.{KeyEq}
use boxd.Types.Transaction.{OutPoint, out_point_equal}

pub out_point_equal_refl : (a : OutPoint) → out_point_equal a a ≡ true
unfolding out_point_equal
out_point_equal_refl a = rw (eq→== a.index a.index refl) (bytes_equal_refl a.hash)

pub out_point_equal→eq : (a b : OutPoint) → out_point_equal a b ≡ true → a ≡ b
unfolding out_point_equal
out_point_equal→eq a b e =
    let h = both_true (a.index == b.index) (bytes_equal a.hash b.hash) e in
    ap₂ (λ (x : List ℕ) (y : ℕ). record { hash = x; index = y }) (bytes_equal→eq a.hash b.hash h.1)
      (==→eq a.index b.index h.0)

abbrev pub out_point_key : KeyEq OutPoint
out_point_key = record {
  same = out_point_equal;
  same_refl = out_point_equal_refl;
  same→eq = out_point_equal→eq;
}
