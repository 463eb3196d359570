-- ===== src/Apron/Reachability.antt =====
-- The coarsest domain: a fact says only whether a program point is reachable. It meets the laws,
-- and the witnesses run the analysis over it.
use watts.Prelude.{◌≡◌, ◌⊎◌, inl, inr, Bool, true, false, ◌||◌, not, none}
use watts.Prelude.Int.{ℤ}
use watts.Apron.{Apron, Env, Interval, Within, empty, range}
use watts.Apron.Laws.{Sound}

abbrev Reached : Bool → Env → Type 0
Reached true e = Unit
Reached false e = ⊥

abbrev pub implies : Bool → Bool → Bool
implies true b = b
implies false b = true

abbrev pub same : Bool → Bool → Bool
same true b = b
same false b = not b

abbrev pub assign_range : Bool → Interval → Bool
assign_range f empty = false
assign_range f (range a b) = f

abbrev pub reachability : Apron
reachability = record {
  Fact = Bool;
  bottom = false;
  top = true;
  is_leq = implies;
  is_eq = same;
  is_bottom = not;
  join = ◌||◌;
  assign_linexpr = λ f x l. f;
  assign_interval = λ f x i. assign_range f i;
  assign_texpr = λ f x t. f;
  meet_lincons = λ f c. f;
  sat_lincons = λ f c. not f;
  bound_variable = λ f x. range none none;
}

implies_sound : (f g : Bool) (e : Env) → implies f g ≡ true → Reached f e → Reached g e
implies_sound true true e h c = tt
implies_sound true false e h c = cc
implies_sound false g e h c = absurd c

join-Covers : (f g : Bool) (e : Env) → Reached f e ⊎ Reached g e → Reached (f || g) e
join-Covers true g e h = tt
join-Covers false true e h = tt
join-Covers false false e (inl c) = c
join-Covers false false e (inr c) = c

assign_range-Covers :
    (f : Bool) (i : Interval) (e e' : Env) (v : ℤ)
    → Reached f e
    → Within v i
    → Reached (assign_range f i) e'
assign_range-Covers true (range a b) e e' v c w = tt
assign_range-Covers true empty e e' v c w = w
assign_range-Covers false i e e' v c w = absurd c

moved : (f : Bool) (e e' : Env) → Reached f e → Reached f e'
moved true e e' c = tt
moved false e e' c = c

unreached : (f : Bool) (e : Env) → not f ≡ true → ¬ Reached f e
unreached true e h c = cc
unreached false e h c = c

pub reachability_sound : Sound reachability
reachability_sound = record {
  Covers = Reached;
  top-Covers = λ e. tt;
  bottom-Covers = λ e c. c;
  leq_sound = implies_sound;
  bottom_sound = unreached;
  join_sound = join-Covers;
  linexpr_sound = λ f x l e c. moved f e _ c;
  interval_sound = λ f x i e v c w. assign_range-Covers f i e _ v c w;
  texpr_sound = λ f x t e v c d. moved f e _ c;
  meet_sound = λ f c e h p. h;
  sat_sound = λ f c e h p. absurd (unreached f e h p);
  bound_sound = λ f x e c. (tt, tt);
}

pub true-Covers : (e : Env) → reachability_sound.Covers true e
unfolding reachability_sound
true-Covers e = tt
