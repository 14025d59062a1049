-- ===== src/Endpoint.antt =====
-- Endpoint of camera server/TUDP.cpp and remote camera/TUDP.cpp: one end of a connection. The fields
-- keep their names. A handle or a cookie is a number, 0 where there is none; `msgbs` is what m_msgb
-- points to. A handler runs to its end before the next one starts, and reads the clock once.
-- OnUserData, the network and the results of allocations are arguments.
mod Buffers
unfoldable pub use Buffers.*
pub mod Send
pub mod Slots
pub mod Assembly
pub mod Orders
pub mod Arrival
pub mod Delivery
pub mod Faults
mod Tests
use Prim.Native.Nat.{bit_and}
use camera_udp.Base.{
  ℕ, zero, suc, ◌+◌, ◌-◌, ◌*◌, ◌%◌, ◌^◌, Bool, true, false, not, ◌&&◌, List, [], ◌∷◌, Option, none,
  some, ltb, ◌==◌, if◌then◌else◌, read, length, get_or,
}
use camera_udp.Rundown

abbrev pub noerror : ℕ
noerror = 0

abbrev pub status_bad_data : ℕ
status_bad_data = 0xC000090B

abbrev pub status_no_memory : ℕ
status_no_memory = 0xC0000017

abbrev pub status_invalid_device_state : ℕ
status_invalid_device_state = 0xC0000184

abbrev pub e_inactive_time : ℕ
e_inactive_time = 15000

-- SOCKADDR_INET: the family, and the bytes of the union.
pub record Sockaddr : Type 0 where
  pub family : ℕ
  pub image : List ℕ

pub record Endpoint : Type 0 where
  pub cookie : ℕ
  pub rcookie : ℕ
  pub tick : ℕ
  pub bits : ℕ
  pub key : ℕ
  pub msgbs : Option (List Msgb)
  pub rp : ℕ
  pub ref_count : ℕ
  pub sa : Sockaddr
  pub m : ℕ

unfoldable pub set_disconnect_time : (now t : ℕ) → Endpoint → Endpoint
set_disconnect_time now t e = record e { tick = now + t }

-- The first `n` buffers are emptied; the sentinel is no USHORT.
abbrev pub reset_msgbs : ℕ → List Msgb → List Msgb
reset_msgbs zero bs = bs
reset_msgbs (suc n) [] = []
reset_msgbs (suc n) (b ∷ bs) = record b { m = maxulong; bits = no_bits } ∷ reset_msgbs n bs

abbrev pub or_new : Option (List Msgb) → Option (List Msgb) → Option (List Msgb)
or_new (some bs) fresh = some bs
or_new none fresh = fresh

-- `fresh` is what `new MSGB[e_nb]` returns.
unfoldable pub init : Option (List Msgb) → Sockaddr → (rcookie : ℕ) → Endpoint → ℕ × Endpoint
init fresh sa rcookie e =
    let (started, word) = Rundown.init e.rp in
    let e1 : Endpoint = record e { rp = word } in
    if started
    then elim (or_new e.msgbs fresh) [
      | none ↦ (status_no_memory, e1)
      | some bs ↦
          (noerror, record e1 { msgbs = some (reset_msgbs e_nb bs); sa = sa; rcookie = rcookie })
    ]
    else (status_invalid_device_state, e1)

-- What a call of OnData returns, and the message that it passed to OnUserData.
pub record Reply : Type 0 where
  pub status : ℕ
  pub delivered : Option (ℕ × List ℕ)

-- !((m_bits + 1) & m_bits), of the endpoint's own m_bits
abbrev pub is_contiguous : ℕ → Bool
is_contiguous bits = bit_and ((bits + 1) % 2 ^ 64) bits == 0

module _ (on_user_data : ℕ → List ℕ → ℕ) where
  -- The part of `OnData` that works on the buffer. `partial` is the status of a fragment that was
  -- stored without completing its message.
  unfoldable pub receive : (partial bits tick : ℕ) → EPacket → Msgb → Reply × Msgb
  unfolding fill take_need
  receive partial bits tick p b =
      let b1 = fill tick p b in
      let b2 = take_need (length p.buf) b1 in
      let message = read b2.buf 0 p.msg_length in
      if ltb p.n max_fragments && not (get_or b.bits p.n false)
      then (if (b1.cb_need == length p.buf % ulong_mod) && is_contiguous bits
          then (
            record { status = on_user_data p.type message; delivered = some (p.type, message) },
            record b2 { bits = no_bits },
          )
          else (record { status = partial; delivered = none }, b2))
      else (record { status = status_bad_data; delivered = none }, b)

  -- `receive` on the buffer with index `i`.
  unfoldable pub receive_at : (partial bits tick : ℕ) → EPacket → ℕ → List Msgb → Reply × List Msgb
  receive_at partial bits tick p i [] = (record { status = noerror; delivered = none }, [])
  receive_at partial bits tick p zero (b ∷ bs) =
      let (r, b') = receive partial bits tick p b in (r, b' ∷ bs)
  receive_at partial bits tick p (suc i) (b ∷ bs) =
      let (r, bs') = receive_at partial bits tick p i bs in (r, b ∷ bs')

  -- `OnData` after `get`: without a buffer the fragment is dropped.
  unfoldable pub receive_found :
      (partial tick : ℕ) → EPacket → Endpoint → Option ℕ × List Msgb → Reply × Endpoint
  unfolding receive_at
  receive_found partial tick p e (none, bs) =
      (record { status = noerror; delivered = none }, record e { msgbs = some bs })
  receive_found partial tick p e (some i, bs) =
      let (r, bs') = receive_at partial e.bits tick p i bs in (r, record e { msgbs = some bs' })

  -- With a null m_msgb the code would fault; here the fragment is ignored.
  unfoldable pub on_data_with : (partial now : ℕ) → EPacket → Endpoint → Reply × Endpoint
  unfolding get receive_found set_disconnect_time
  on_data_with partial now p e =
      let e1 = set_disconnect_time now e_inactive_time e in
      let tick = now % ulong_mod in
      elim e.msgbs [
        | none ↦ (record { status = noerror; delivered = none }, e1)
        | some bs ↦ receive_found partial tick p e1 (get p.m p.msg_length tick bs)
      ]

  -- camera server/TUDP.cpp
  unfoldable pub on_data : (now : ℕ) → EPacket → Endpoint → Reply × Endpoint
  unfolding on_data_with
  on_data = on_data_with status_bad_data

  -- remote camera/TUDP.cpp
  unfoldable pub on_data_client : (now : ℕ) → EPacket → Endpoint → Reply × Endpoint
  unfolding on_data_with
  on_data_client = on_data_with noerror
