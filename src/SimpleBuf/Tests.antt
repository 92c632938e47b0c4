-- ===== src/SimpleBuf/Tests.antt =====
-- Calls of a buffer of four bytes.
use quote_link_rs.Base.{◌≡◌, refl, List, [], ◌∷◌, true, false, All, arith}
use quote_link_rs.SimpleBuf
use quote_link_rs.SimpleBuf.{SimpleBuf}
use quote_link_rs.SimpleBuf.Invariant.{new-IsValid}
use quote_link_rs.SimpleBuf.Window
use quote_link_rs.SimpleBuf.Window.{Op}
use quote_link_rs.SimpleBuf.Refine.{window, run, IsOp, run_refines}

abbrev calls : List Op
calls =
    Op.push_op (1 ∷ 2 ∷ 3 ∷ [])
    ∷ Op.free_op 2
    ∷ Op.push_op (4 ∷ 5 ∷ [])
    ∷ Op.reuse_op
    ∷ Op.push_op (4 ∷ 5 ∷ [])
    ∷ Op.free_op 4
    ∷ []

calls-IsOp : All IsOp calls
calls-IsOp = ground arith

run_calls :
    run (SimpleBuf.new 4) calls
    ≡ (true, 1 ∷ 2 ∷ 3 ∷ [])
      ∷ (true, 3 ∷ [])
      ∷ (false, 3 ∷ [])
      ∷ (true, 3 ∷ [])
      ∷ (true, 3 ∷ 4 ∷ 5 ∷ [])
      ∷ (false, 3 ∷ 4 ∷ 5 ∷ [])
      ∷ []
unfolding run SimpleBuf.push_slice SimpleBuf.occupied_slice SimpleBuf.free SimpleBuf.new
    SimpleBuf.reuse
run_calls = refl

run_refines_example : run (SimpleBuf.new 4) calls ≡ Window.run (window (SimpleBuf.new 4)) calls
run_refines_example = run_refines calls (new-IsValid 4 (omega arith)) calls-IsOp
