-- ===== src/Dns/Loops.antt =====
-- A name that points to itself.
use camera_udp.Base.{
  ℕ, zero, suc, ◌+◌, ◌-◌, ◌*◌, ◌/◌, ◌%◌, ◌≤◌, ◌<◌, ◌≡◌, refl, false, none, arith, ltb, leb, ◌==◌,
  Memory, ==_of_eq,
}
use camera_udp.Formats.{wchar_at}
use camera_udp.Dns.{Dcd, net_ushort_at, after_pointer, after_name, walk_name, on_recv}

walk_name_self :
    (m : Memory) (base size fuel ofs : ℕ)
    → m (base + ofs) / 64 ≡ 3
    → (m (base + ofs + 1) + 256 * m (base + ofs)) % 1024 ≡ ofs
    → ofs + 1 < size
    → (start : ℕ) → walk_name m base size fuel start (base + ofs) (size - ofs) ≡ none
unfolding walk_name after_pointer
walk_name_self m base size zero ofs mark self lt start = refl
walk_name_self m base size (suc fuel) ofs mark self lt start =
    let some_left : (size - ofs == 0) ≡ false = ground arith in
    let char : (m (base + ofs) == 0) ≡ false = ground (arith, mark) in
    let both : (size - ofs == 1) ≡ false = ground arith in
    let inside : leb size ofs ≡ false = ground arith in
    let again = walk_name_self m base size fuel ofs mark self lt (base + ofs) in
    rw (some_left, char, ==_of_eq mark, both, self, inside, again) refl

-- A reply of 14 bytes or more whose question is a pointer to itself is never answered: IsNameValid calls
-- itself without end, with any fuel.
pub on_recv_self :
    (m : Memory) (fuel buffer size : ℕ) (q : Dcd)
    → 14 ≤ size
    → m (buffer + 3) % 16 ≡ 0
    → wchar_at m buffer ≡ q.xid
    → 0 < net_ushort_at m (buffer + 6)
    → m (buffer + 12) ≡ 192
    → m (buffer + 13) ≡ 12
    → on_recv m fuel buffer size q ≡ none
unfolding on_recv after_name
on_recv_self m fuel buffer size q long success same_xid count mark low =
    let header : ltb size 12 ≡ false = ground arith in
    let some_answer : (net_ushort_at m (buffer + 6) == 0) ≡ false = ground arith in
    let marked : m (buffer + 12) / 64 ≡ 3 = omega (arith, mark) in
    let e : buffer + 12 + 1 ≡ buffer + 13 = omega arith in
    let self : (m (buffer + 12 + 1) + 256 * m (buffer + 12)) % 1024 ≡ 12 = rw (e, mark, low) refl in
    rw
      (
        header,
        ==_of_eq success,
        ==_of_eq same_xid,
        some_answer,
        walk_name_self m buffer size fuel 12 marked self (omega arith) (buffer + 12),
      )
      refl
