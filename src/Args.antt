-- ===== src/Args.antt =====
-- worklist-ai/worklistai.cpp: `checkCommandLineArgs` on the flags of the command line.
pub mod Valid
use watts.Prelude.{
  ℕ, ◌==◌, ◌&&◌, ◌||◌, not, Bool, true, false, if◌then◌else◌, Result, ok, err, exit_failure,
}

-- `useBoxG` and so on; `z3_bin_loc` is the length of the path of Z3.
pub record Flags : Type 0 where
  pub use_box : Bool
  pub use_oct : Bool
  pub use_poly : Bool
  pub use_lin_eq : Bool
  pub tso_constr : Bool
  pub pso_constr : Bool
  pub use_constraints : Bool
  pub no_combins : Bool
  pub dyn_init : Bool
  pub z3_bin_loc : ℕ

unfoldable pub no_domain : Flags → Bool
no_domain f = not f.use_box && not f.use_oct && not f.use_poly && not f.use_lin_eq

unfoldable pub two_domains : Flags → Bool
two_domains f =
    f.use_box && (f.use_oct || f.use_poly || f.use_lin_eq)
    || f.use_oct && (f.use_box || f.use_poly || f.use_lin_eq)
    || f.use_poly && (f.use_box || f.use_oct || f.use_lin_eq)
    || f.use_lin_eq && (f.use_box || f.use_oct || f.use_poly)

unfoldable pub check_command_line_args : Flags → Result Flags
unfolding no_domain two_domains
check_command_line_args f =
    if no_domain f
    then err exit_failure
    else if f.tso_constr && f.pso_constr
    then err exit_failure
    else if two_domains f
    then err exit_failure
    else if f.use_constraints && f.no_combins
    then err exit_failure
    else if f.use_constraints && (f.z3_bin_loc == 0)
    then err exit_failure
    else ok (if f.use_constraints then record f { dyn_init = true } else f)
