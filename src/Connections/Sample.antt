-- ===== src/Connections/Sample.antt =====
-- Two connections of one socket.
use camera_udp.Base.{ℕ, [], ◌∷◌, none, arith, ◌==◌, if◌then◌else◌}
use camera_udp.Rundown.{v_init}
use camera_udp.Endpoint.{Endpoint, Sockaddr}
use camera_udp.Connections.{Table}
use camera_udp.Connections.Counts.{Sound}

abbrev pub address : Sockaddr
address = record { family = 2; image = [] }

-- An accepted endpoint with one reference, that of the list.
abbrev pub listed_endpoint : ℕ → Endpoint
listed_endpoint c = record {
  cookie = c;
  rcookie = 1;
  tick = 15000;
  bits = 0;
  key = 0;
  msgbs = none;
  rp = v_init;
  ref_count = 1;
  sa = address;
  m = 0;
}

abbrev pub unlisted_endpoint : Endpoint
unlisted_endpoint = record (listed_endpoint 0) { ref_count = 0 }

abbrev pub two : Table
two = record {
  list = 1 ∷ 2 ∷ [];
  heap = λ p.
      if p == 1
      then listed_endpoint 11
      else (if p == 2 then listed_endpoint 12 else unlisted_endpoint);
  disconnected = [];
  deleted = [];
}

abbrev pub nobody : ℕ → ℕ
nobody p = 0

pub two-Sound : Sound two nobody
two-Sound = record {
  counted = λ p. ground arith;
  once = λ p. ground arith;
  alive = λ p h. absurd (omega arith);
  few = λ p. omega arith;
}
