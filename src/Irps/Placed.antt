-- ===== src/Irps/Placed.antt =====
-- Where the blocks of Create are, after any steps.
use camera_udp.Base.{
  ℕ, ◌+◌, ◌*◌, ◌%◌, ◌^◌, ◌≤◌, ◌<◌, ◌≡◌, refl, ◌∙◌, inl, [], length, Option, some, arith, occurs,
}
use camera_udp.Rundown.{release, rundown_l}
use camera_udp.Irps.Blocks.{create-IsFree}
use camera_udp.Irps.{BlockHeap, block_size, create, Irps, object_delete}
use camera_udp.Irps.Steps.{
  Step, new_irp, delete_irp, new_object, delete_object, close, Reach, start, next, Kept,
  Kept-operator_new, Kept-operator_delete, Kept-object_new,
}

Step-Kept : (h : BlockHeap) {s t : Irps} → Step s t → Kept h s → Kept h t
unfolding object_delete release rundown_l
Step-Kept h {s} (new_irp exact process_heap lt f) k =
    Kept-operator_new h exact process_heap s k f lt
Step-Kept h {s} (delete_irp p on) k = Kept-operator_delete h p s k on
Step-Kept h {s} (new_object granted lt) k = Kept-object_new h granted s k lt
Step-Kept h {s} (delete_object pos) k =
    let few = k.few in
    let counts = k.counts in
    record {
      place = k.place;
      same = k.same;
      few = omega (arith, few);
      counts = ground (arith, counts, few);
    }
Step-Kept h {s} (close pos) k =
    let few = k.few in
    let counts = k.counts in
    record { place = k.place; same = k.same; few = few; counts = ground (arith, counts, few) }

Reach-Kept : (h : BlockHeap) {s : Irps} → Reach h s → Kept h s
Reach-Kept h start = record {
  place = λ a. refl;
  same = λ a b. omega arith;
  few = omega arith;
  counts = inl (omega arith);
}
Reach-Kept h (next r st) = Step-Kept h st (Reach-Kept h r)

-- From Create with a region of at least one block and less than 2 ^ 32 bytes, however requests and
-- objects are made and deleted and the protection is run down, each block that Create made lies in the
-- region with room for an object, and is either on the list, once, or one request in use; and
-- g_IoRundown, without the sign bit, is the number of requests and objects in use. The memory of the
-- process is not taken for a block, and fewer than 2 ^ 31 are in use.
pub requests_in_one_place :
    (allocate : ℕ → Option (ℕ × ℕ)) (cb_block count pv region_size a : ℕ) (h : BlockHeap) (s : Irps)
    → h.head ≡ []
    → cb_block < 2 ^ 31
    → 0 < count
    → allocate (block_size cb_block * count % 2 ^ 32) ≡ some (pv, region_size)
    → block_size cb_block ≤ region_size
    → region_size < 2 ^ 32
    → pv + region_size ≤ 2 ^ 64
    → Reach (create allocate cb_block count h).1 s
    → 0 < occurs a (create allocate cb_block count h).1.head
    → (occurs a s.blocks.head + occurs a s.live ≡ 1)
      × (pv ≤ a)
      × (a + cb_block ≤ pv + region_size)
      × (s.word % 2 ^ 31 ≡ length s.live + s.objects)
requests_in_one_place allocate cb_block count pv region_size a h s e small pos memory holds lt high
      r on =
    let (low, inside, block, once) =
      create-IsFree allocate cb_block count pv region_size a h e small pos memory holds lt high
        on in
    let k = Reach-Kept (create allocate cb_block count h).1 r in
    let few = k.few in
    let counts = k.counts in (k.same a block ∙ once, low, inside, ground (arith, counts, few))
