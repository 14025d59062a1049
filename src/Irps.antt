-- ===== src/Irps.antt =====
-- BLOCK_HEAP of asio/blockheap.cpp, and the operators new and delete of IO_IRP and NT_IRP in asio/io.cpp,
-- which take a block of it, or memory of the process, and count the requests in g_IoRundown. An
-- interlocked list is a list, the last entry first; an entry has 16 bytes and alignment 16, as in the
-- x64 build.
pub mod Blocks
pub mod Steps
pub mod Placed
mod Tests
use camera_udp.Base.{
  ℕ, zero, suc, ◌+◌, ◌-◌, ◌*◌, ◌/◌, ◌%◌, ◌^◌, Bool, true, false, List, [], ◌∷◌, Option, none, some,
  ltb, ◌==◌, if◌then◌else◌, remove,
}
use camera_udp.Rundown.{release}
use camera_udp.Rundown.Acquire.{acquire_spec}

pub record BlockHeap : Type 0 where
  pub head : List ℕ
  pub buf : ℕ
  pub cb : ℕ
  pub count : ℕ

-- The offset is cut to 32 bits.
unfoldable pub is_block : BlockHeap → ℕ → Bool
is_block h p = ltb ((p + 2 ^ 64 - h.buf) % 2 ^ 32) h.cb

unfoldable pub block_size : ℕ → ℕ
block_size cb_block = ((if ltb cb_block 16 then 16 else cb_block) + 15) / 16 * 16 % 2 ^ 32

-- `count` blocks from `pb` on.
unfoldable pub push_blocks : (count pb cb_block : ℕ) → List ℕ → List ℕ
push_blocks zero pb cb_block head = head
push_blocks (suc count) pb cb_block head = push_blocks count (pb + cb_block) cb_block (pb ∷ head)

-- do push while (--count): a ULONG of 0 wraps.
abbrev pub rounds : ℕ → ℕ
rounds count = if count == 0 then 2 ^ 32 else count

-- The memory that NtAllocateVirtualMemory gave, and its size.
unfoldable pub create_in : (cb_block : ℕ) → Option (ℕ × ℕ) → BlockHeap → Bool × BlockHeap
create_in cb_block none h = (false, h)
create_in cb_block (some (pv, region_size)) h =
    let count = region_size % 2 ^ 32 / cb_block in
    (
      true,
      record {
        head = push_blocks (rounds count) pv cb_block h.head;
        buf = pv;
        cb = region_size;
        count = count;
      },
    )

-- `allocate` is NtAllocateVirtualMemory.
unfoldable pub create :
    (allocate : ℕ → Option (ℕ × ℕ)) (cb_block count : ℕ) → BlockHeap → Bool × BlockHeap
create allocate cb_block count h =
    let size = block_size cb_block in
    if count == 0 then (false, h) else create_in size (allocate (size * count % 2 ^ 32)) h

abbrev pub pop : BlockHeap → List ℕ → Option ℕ × BlockHeap
pop h [] = (none, h)
pop h (p ∷ head) = (some p, record h { head = head })

unfoldable pub alloc : BlockHeap → Option ℕ × BlockHeap
alloc h = pop h h.head

unfoldable pub free : ℕ → BlockHeap → BlockHeap
free p h = record h { head = p ∷ h.head }

-- s_bh and g_IoRundown; `live` are the requests and `objects` the number of IO_OBJECTs that are in use,
-- which no code keeps.
pub record Irps : Type 0 where
  pub blocks : BlockHeap
  pub word : ℕ
  pub live : List ℕ
  pub objects : ℕ

-- What new gives when Acquire has succeeded: `p` is the block, if there is one.
unfoldable pub new_acquired :
    (process_heap : Option ℕ) → Option ℕ × BlockHeap → Irps → Option ℕ × Irps
new_acquired process_heap (some p, h) s = (some p, record s { blocks = h; live = p ∷ s.live })
new_acquired (some p) (none, h) s = (some p, record s { blocks = h; live = p ∷ s.live })
new_acquired none (none, h) s = (none, record s { blocks = h; word = (release s.word).1 })

-- operator new of the size of a request (`exact`) or with more bytes; `process_heap` is what ::operator
-- new gives.
unfoldable pub operator_new : (exact : Bool) (process_heap : Option ℕ) → Irps → Option ℕ × Irps
operator_new exact process_heap s =
    let (acquired, word) = acquire_spec s.word in
    let s1 : Irps = record s { word = word } in
    if acquired
    then new_acquired process_heap (if exact then alloc s.blocks else (none, s.blocks)) s1
    else (none, s1)

unfoldable pub operator_delete : ℕ → Irps → Irps
operator_delete p s = record s {
  blocks = if is_block s.blocks p then free p s.blocks else s.blocks;
  word = (release s.word).1;
  live = remove p s.live;
}

-- IO_OBJECT::operator new, with whether ::operator new gives memory, and operator delete.
unfoldable pub object_new : (granted : Bool) → Irps → Bool × Irps
object_new granted s =
    let (acquired, word) = acquire_spec s.word in
    if acquired
    then (if granted
        then (true, record s { word = word; objects = s.objects + 1 })
        else (false, record s { word = (release word).1 }))
    else (false, record s { word = word })

unfoldable pub object_delete : Irps → Irps
object_delete s = record s { word = (release s.word).1; objects = s.objects - 1 }
