-- ===== src/Apron/Laws.antt =====
-- What Apron documents of its operations: each abstract value stands for a set of valuations, and
-- every operation covers the valuations that the concrete one gives. A test that answers `true` is
-- definite, and `false` means "no" or "unknown".
use watts.Prelude.{ℕ, ◌≡◌, ◌⊎◌, true, some}
use watts.Prelude.Int.{ℤ}
use watts.Apron.{
  Apron, Env, update, LinExpr, Lincons, Holds, Interval, Within, Texpr, eval, eval_texpr,
}

pub record Sound (a : Apron) : Type 1 where
  pub Covers : a.Fact → Env → Type 0
  pub top-Covers : (e : Env) → Covers a.top e
  pub bottom-Covers : (e : Env) → ¬ Covers a.bottom e
  pub leq_sound : (f g : a.Fact) (e : Env) → a.is_leq f g ≡ true → Covers f e → Covers g e
  pub bottom_sound : (f : a.Fact) (e : Env) → a.is_bottom f ≡ true → ¬ Covers f e
  pub join_sound : (f g : a.Fact) (e : Env) → Covers f e ⊎ Covers g e → Covers (a.join f g) e
  pub linexpr_sound :
      (f : a.Fact) (x : ℕ) (l : LinExpr) (e : Env)
      → Covers f e
      → Covers (a.assign_linexpr f x l) (update e x (eval e l))
  pub interval_sound :
      (f : a.Fact) (x : ℕ) (i : Interval) (e : Env) (v : ℤ)
      → Covers f e
      → Within v i
      → Covers (a.assign_interval f x i) (update e x v)
  pub texpr_sound :
      (f : a.Fact) (x : ℕ) (t : Texpr) (e : Env) (v : ℤ)
      → Covers f e
      → eval_texpr e t ≡ some v
      → Covers (a.assign_texpr f x t) (update e x v)
  pub meet_sound :
      (f : a.Fact) (c : Lincons) (e : Env)
      → Covers f e
      → Holds c.constyp (eval e c.expr)
      → Covers (a.meet_lincons f c) e
  pub sat_sound :
      (f : a.Fact) (c : Lincons) (e : Env)
      → a.sat_lincons f c ≡ true
      → Covers f e
      → Holds c.constyp (eval e c.expr)
  pub bound_sound :
      (f : a.Fact) (x : ℕ) (e : Env) → Covers f e → Within (e x) (a.bound_variable f x)
