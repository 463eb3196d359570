-- ===== src/Args/Valid.antt =====
-- Which command lines `checkCommandLineArgs` lets through.
use watts.Prelude.{
  ℕ, ◌+◌, ◌≡◌, ◌≢◌, ◌↔◌, ◌&&◌, ◌||◌, Bool, true, false, ok, err, exit_failure, arith,
}
use watts.Args.{Flags, no_domain, two_domains, check_command_line_args}

abbrev pub bit : Bool → ℕ
bit true = 1
bit false = 0

-- One abstract domain, not both of TSO and PSO, and with constraints the combinations and a path of Z3.
abbrev pub IsValid : Flags → Type 0
IsValid f =
    (bit f.use_box + bit f.use_oct + bit f.use_poly + bit f.use_lin_eq ≡ 1)
    × ((f.tso_constr && f.pso_constr) ≡ false)
    × (f.use_constraints ≡ true → (f.no_combins ≡ false) × (f.z3_bin_loc ≢ 0))

-- `checkCommandLineArgs` returns exactly when one abstract domain is chosen, TSO and PSO are not both,
-- and, if constraints are used, combinations are not turned off and the path of Z3 is not empty. What
-- it returns are the flags with `dynInitG` set if constraints are used, and it exits otherwise.
pub check_command_line_args-IsValid :
    (f g : Flags)
    → ((check_command_line_args f ≡ ok g)
        ↔ (IsValid f × (g ≡ record f { dyn_init = f.use_constraints || f.dyn_init })))
      × ((check_command_line_args f ≡ err exit_failure) ↔ ¬ (IsValid f))
unfolding check_command_line_args no_domain two_domains
check_command_line_args-IsValid f g = ground arith
