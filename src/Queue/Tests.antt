-- ===== src/Queue/Tests.antt =====
-- Calls on a queue of numbers.
use udm.Base.{ℕ, ◌≡◌, refl, some, true, false, List, [], ◌∷◌}
use udm.Queue.{Queue, init, call, run}
use udm.Queue.Fifo.{Op, Reply}
use udm.Queue.Fifo
use udm.Queue.Seg.{Holds}
use udm.Queue.Refine.{init-Holds, call_refines, run_refines}

abbrev script : List (Op ℕ)
script =
    Op.push 7
    ∷ Op.push_with_ref 8
    ∷ Op.get_count
    ∷ Op.try_pop
    ∷ Op.peek
    ∷ Op.is_empty
    ∷ Op.try_pop_into 5
    ∷ []

run-script :
    run (init 4) script
    ≡ some (
        Reply.unit
        ∷ Reply.unit
        ∷ Reply.number 2
        ∷ Reply.item (some 7)
        ∷ Reply.test true
        ∷ Reply.test true
        ∷ Reply.into false 5
        ∷ [])
unfolding run init
run-script = refl

call_refines_example :
    (q : Queue ℕ) × (call (init 4) (Op.push 7) ≡ some ((Fifo.call [] (Op.push 7)).0, q))
    × Holds q (Fifo.call [] (Op.push 7)).1
call_refines_example = call_refines (init 4) (Op.push 7) [] (init-Holds 4)

run_refines_example : run (init 4) script ≡ some (Fifo.run [] script)
run_refines_example = run_refines script (init 4) [] (init-Holds 4)
