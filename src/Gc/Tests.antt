-- ===== src/Gc/Tests.antt =====
-- A queue with one thread to destroy, at the end of the array.
use spoon_microkernel.Prelude.{◌≡◌, refl, replicate, set, arith}
use spoon_microkernel.Prelude.Int.{pos}
use spoon_microkernel.Gc.{GcInfo, GcQueue, no_info, gc_queue, gc_has_work}
use spoon_microkernel.Gc.Fifo.{IsGcQueue, Queued, gc_queue_refines}

abbrev one_thread : GcInfo
one_thread = record { pid = pos 4; tid = pos 2 }

abbrev one_waits : GcQueue
one_waits = record { info = set (replicate 32 no_info) 31 one_thread; place = 31; size = 1 }

one_waits-IsGcQueue : IsGcQueue one_waits
one_waits-IsGcQueue = record { sized = refl; inside = omega arith; within = omega arith }

gc_queue_refines_example : Queued no_info one_waits (gc_queue no_info one_waits)
gc_queue_refines_example = gc_queue_refines one_waits-IsGcQueue no_info

some_work : gc_has_work one_waits ≡ pos 0
unfolding gc_has_work
some_work = refl
