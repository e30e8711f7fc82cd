-- ===== src/Tests/BufferRuns.antt =====
-- Runs of the buffer of src/buffer.cpp.
use idc.Prelude.{refl, List, [], ◌∷◌, Returns, arith}
use idc.Buffer.{Buffer, max_size, new, moved, failed, IsValid}
use idc.Buffer.Queue.{Op, appends, ensures, retrieves, retrieves_to, reads, writes, run, StandsFor}
use idc.Buffer.Queue.Refinement.{run-queue}

-- A vector of six places, with two readable bytes behind two that were read.
abbrev used : Buffer
used = record { buffer = 1 ∷ 2 ∷ 3 ∷ 4 ∷ 0 ∷ 0 ∷ []; read_pos = 2; write_pos = 4 }

used-IsValid : IsValid used
used-IsValid = record { ordered = omega arith; within = omega arith; bounded = omega arith }

abbrev history : List Op
history =
    appends (1 ∷ 2 ∷ 3 ∷ [])
    ∷ retrieves 2
    ∷ ensures 4
    ∷ reads (moved (4 ∷ 5 ∷ 6 ∷ 7 ∷ 8 ∷ []))
    ∷ reads (failed 11)
    ∷ writes (moved 1)
    ∷ retrieves_to 2
    ∷ []

run-queue_example : Returns (run (new 2) history) (StandsFor (6 ∷ 7 ∷ 8 ∷ []) max_size)
run-queue_example = run-queue 2 history refl (omega arith)
