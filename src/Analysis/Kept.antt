-- ===== src/Analysis/Kept.antt =====
-- `analyzeFunc` takes no error off the books, without the assertion slice.
use watts.Prelude.{ℕ, ◌≡◌, false, some, List, [], ◌∷◌, map, All, ok}
use watts.Prelude.Map.{Map}
use watts.Apron.{Apron}
use watts.Apron.Laws.{Sound}
use watts.Llvm.{Block, Context}
use watts.BbOps.Transfer.{Flags, Slices, Books}
use watts.BbOps.Transfer.Concrete.{Addressed}
use watts.BbOps.Transfer.Notes.{Reported}
use watts.BbOps.Transfer.Walk.{walk_keeps}
use watts.Worklist.Keeps.{analyze_from-Keeps}
use watts.Analysis.Sound.{run_block_parts, block_at-Addressed}
use watts.Analysis.{run_block, analyze_func}

module _ (a : Apron) (l : Sound a) (fl : Flags) (ctx : Context) (interf : Map (a.Fact))
    (sl : Slices) (off : fl.assert_slice ≡ false) where
  open a use {Fact}

  pub analyze_func-keeps :
      (fuel : ℕ) (bbs : List Block) (f : Fact) (b b' : Books a) (s : Map Fact) (n : ℕ)
      → All Addressed bbs
      → analyze_func a fl ctx interf sl fuel bbs f b ≡ some (ok (s, b'))
      → Reported a n b
      → Reported a n b'
  unfolding analyze_func
  analyze_func-keeps fuel [] f b b' s n w h r = cc
  analyze_func-keeps fuel (bb ∷ bbs) f b b' s n w h r =
      analyze_from-Keeps a (run_block a fl ctx interf sl (bb ∷ bbs)) (Reported a n)
        (λ k g c c' outs ran kept.
          let (x, y, p, q, o) = run_block_parts a l fl ctx interf sl (bb ∷ bbs) k g c c' outs ran in
          walk_keeps a l fl ctx interf sl off x.term_id x.term_id x.body g y c c' n
            (block_at-Addressed a l fl ctx interf sl (bb ∷ bbs) k x w p) q kept)
        fuel (map (λ (x : Block). x.id) (bb ∷ bbs)) bb.id f s b b' h r
