-- ===== src/Filter/Parser/Steps.antt =====
-- One step of each method of the parser, on each outcome of its test.
use net_replay.Common.{ℕ, suc, true, false, ◌≡◌, refl}
use net_replay.Filter.Syntax.{ok, ◌>>=◌, Node, and_node, or_node, not_node}
use net_replay.Filter.Parser.{
  Tokens, peek_is, rest_of, closed_by, comparison_expr, or_expr, or_loop, and_expr, and_loop,
  not_expr, primary, word_and, word_or, word_not, open_paren,
}

module _ (f : ℕ) (n : Node) (ts : Tokens) where
  pub or_loop_more :
      peek_is word_or ts ≡ true
      → or_loop (suc f) n ts ≡ (and_expr f (rest_of ts) >>= λ (m, r). or_loop f (or_node n m) r)
  unfolding or_loop
  or_loop_more e = rw (e, or_loop)

  pub or_loop_done : peek_is word_or ts ≡ false → or_loop (suc f) n ts ≡ ok (n, ts)
  unfolding or_loop
  or_loop_done e = rw (e, or_loop)

  pub and_loop_more :
      peek_is word_and ts ≡ true
      → and_loop (suc f) n ts ≡ (not_expr f (rest_of ts) >>= λ (m, r). and_loop f (and_node n m) r)
  unfolding and_loop
  and_loop_more e = rw (e, and_loop)

  pub and_loop_done : peek_is word_and ts ≡ false → and_loop (suc f) n ts ≡ ok (n, ts)
  unfolding and_loop
  and_loop_done e = rw (e, and_loop)

module _ (f : ℕ) (ts : Tokens) where
  pub not_expr_more :
      peek_is word_not ts ≡ true
      → not_expr (suc f) ts ≡ (not_expr f (rest_of ts) >>= λ (n, r). ok (not_node n, r))
  unfolding not_expr
  not_expr_more e = rw (e, not_expr)

  pub not_expr_done : peek_is word_not ts ≡ false → not_expr (suc f) ts ≡ primary f ts
  unfolding not_expr
  not_expr_done e = rw (e, not_expr)

  pub primary_open :
      peek_is open_paren ts ≡ true → primary (suc f) ts ≡ (or_expr f (rest_of ts) >>= closed_by)
  unfolding primary
  primary_open e = rw (e, primary)

  pub primary_comparison : peek_is open_paren ts ≡ false → primary (suc f) ts ≡ comparison_expr ts
  unfolding primary
  primary_comparison e = rw (e, primary)

  pub or_expr_lem : or_expr (suc f) ts ≡ (and_expr f ts >>= λ (n, r). or_loop f n r)
  unfolding or_expr
  or_expr_lem = refl

  pub and_expr_lem : and_expr (suc f) ts ≡ (not_expr f ts >>= λ (n, r). and_loop f n r)
  unfolding and_expr
  and_expr_lem = refl
