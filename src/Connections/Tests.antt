-- ===== src/Connections/Tests.antt =====
-- The handlers on two connections of one socket.
use camera_udp.Base.{one, ℕ, some, ◌≡◌, refl, [], ◌∷◌, arith, ◌==◌, if◌then◌else◌}
use camera_udp.Rundown.{acquire_alone, release, rundown_l}
use camera_udp.Connections.{Table, disconnect_found, get, sockaddr_eq, on_disconnect}
use camera_udp.Connections.Counts.{Sound}
use camera_udp.Connections.Handlers.{Kept, on_disconnect-Sound}
use camera_udp.Connections.Connect.{connect, connect-Sound}
use camera_udp.Connections.Sample.{
  address, listed_endpoint, unlisted_endpoint, two, nobody, two-Sound,
}

on_disconnect-Sound_example :
    Sound (on_disconnect 12 address two) nobody × Kept address 12 two (on_disconnect 12 address two)
on_disconnect-Sound_example = on_disconnect-Sound 12 address two nobody (λ p. omega arith) two-Sound

-- It does leave the list, and is deleted.
disconnect_12 :
    ((on_disconnect 12 address two).list ≡ 1 ∷ [])
    × ((on_disconnect 12 address two).deleted ≡ 2 ∷ [])
    × ((on_disconnect 12 address two).disconnected ≡ 2 ∷ [])
unfolding on_disconnect disconnect_found get sockaddr_eq acquire_alone release rundown_l
disconnect_12 = (refl, refl, refl)

-- The caller holds endpoint 3, which is not in the list.
calling : Table
calling = record two {
  heap = λ p. if p == 3 then record (listed_endpoint 13) { rp = 0 } else two.heap p;
}

caller : ℕ → ℕ
caller p = one 3 p

calling-Sound : Sound calling caller
unfolding calling caller
calling-Sound = record {
  counted = λ p. ground arith;
  once = λ p. ground arith;
  alive = λ p h. absurd (omega arith);
  few = λ p. ground arith;
}

-- SendTo fails, so the endpoint is in the list no more.
connect-Sound_example :
    Sound (connect (λ n. some (λ a. 0)) (λ packet. 5) (some []) 7 3 address [] calling).1 caller
unfolding calling caller
connect-Sound_example =
    connect-Sound (λ n. some (λ a. 0)) (λ packet. 5) (some []) 7 3 address [] calling caller refl
      (omega arith) (omega arith) calling-Sound

abbrev single : Table
single = record {
  list = 1 ∷ [];
  heap = λ p. if p == 1 then listed_endpoint 11 else unlisted_endpoint;
  disconnected = [];
  deleted = [];
}

single-Sound : Sound single nobody
single-Sound = record {
  counted = λ p. ground arith;
  once = λ p. ground arith;
  alive = λ p h. absurd (omega arith);
  few = λ p. omega arith;
}
