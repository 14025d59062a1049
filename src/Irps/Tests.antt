-- ===== src/Irps/Tests.antt =====
-- A heap of two blocks, and its theorems at it.
use camera_udp.Base.{
  ◌+◌, ◌^◌, ◌%◌, ◌≡◌, ◌≤◌, refl, true, false, [], ◌∷◌, length, none, some, arith, occurs,
}
use camera_udp.Rundown.{release}
use camera_udp.Irps.{
  BlockHeap, is_block, block_size, push_blocks, create_in, create, alloc, free, Irps, new_acquired,
  operator_new, operator_delete,
}
use camera_udp.Irps.Steps.{started, Reach, start, next, new_irp, delete_irp}
use camera_udp.Irps.Placed.{requests_in_one_place}

abbrev none_yet : BlockHeap
none_yet = record { head = []; buf = 0; cb = 0; count = 0 }

-- A region at 65536, where an object of 56 bytes takes 64.
abbrev heap : BlockHeap
heap = (create (λ n. some (65536, 128)) 56 2 none_yet).1

heap-head : heap.head ≡ 65600 ∷ 65536 ∷ []
unfolding create create_in block_size push_blocks
heap-head = refl

-- A request in a block, one with more bytes from the process, and the first is deleted.
abbrev used : Irps
used =
    operator_delete 65600
      (operator_new false (some 1000000) (operator_new true none (started heap)).1).1

used-words : (used.live ≡ 1000000 ∷ []) × (used.word ≡ 2 ^ 31 + 1)
unfolding create create_in block_size push_blocks operator_delete operator_new new_acquired alloc
    free is_block release
used-words = (refl, refl)

used-Reach : Reach heap used
unfolding create create_in block_size push_blocks operator_delete operator_new new_acquired alloc
    free is_block release
used-Reach =
    next
      (next (next start (new_irp true none (omega arith) tt))
        (new_irp false (some 1000000) (omega arith) refl))
      (delete_irp 65600 (omega arith))

requests_in_one_place_example :
    (occurs 65536 used.blocks.head + occurs 65536 used.live ≡ 1)
    × (65536 ≤ 65536)
    × (65536 + 56 ≤ 65536 + 128)
    × (used.word % 2 ^ 31 ≡ length used.live + used.objects)
unfolding create create_in block_size push_blocks
requests_in_one_place_example =
    requests_in_one_place (λ n. some (65536, 128)) 56 2 65536 128 65536 none_yet used refl
      (omega arith) (omega arith) refl (omega arith) (omega arith) (omega arith) used-Reach
      (omega arith)
