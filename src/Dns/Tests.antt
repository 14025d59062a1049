-- ===== src/Dns/Tests.antt =====
-- A question, a reply to it, and the theorems at them.
use camera_udp.Base.{
  Option, ◌+◌, ◌≤◌, leb, ltb, ◌<◌, ℕ, ◌≡◌, ◌⊎◌, refl, true, List, [], ◌∷◌, none, some, arith,
  Memory, copy,
}
use camera_udp.Listing.Ranges.{Holds-copy}
use camera_udp.Dns.{
  Address, no_error, ipv4, Dcd, prepend_label, write_labels, after_labels,
  dns_write_question_to_buffer, after_pointer, after_name, walk_name, address_in, take_record,
  after_record, read_answer, read_answers, on_recv,
}
use camera_udp.Dns.Lookup.{
  CrcIpTime, hash_string, asking, ask, known_ipv4, dns_to_ip, cache_get, cache_set,
}
use camera_udp.Dns.Names.{NameAt, ends, label, pointer}
use camera_udp.Dns.Questions.{dotted}
use camera_udp.Dns.Asked.{Asks, dns_write_question_to_buffer-Asks}
use camera_udp.Dns.Replies.{Answer, IsReply}
use camera_udp.Dns.First.{IsFirst, on_recv-IsFirst}
use camera_udp.Dns.Inside.{on_recv_by_message}
use camera_udp.Dns.Loops.{on_recv_self}
use camera_udp.Dns.Cache.{Write, after_writes, Fresh, cache_get-Fresh}

-- The name "a.b", its address asked for with the Xid 0x1234.
abbrev asked : List ℕ
asked = 52 ∷ 18 ∷ 1 ∷ 0 ∷ 0 ∷ 1 ∷ 0 ∷ 0 ∷ 0 ∷ 0 ∷ 0 ∷ 0 ∷ 1 ∷ 97 ∷ 1 ∷ 98 ∷ 0 ∷ 0 ∷ 1 ∷ 0 ∷ 1 ∷ []

question-written :
    dns_write_question_to_buffer 512 (97 ∷ 46 ∷ 98 ∷ []) 256 4660 true ≡ (no_error, asked)
unfolding dns_write_question_to_buffer after_labels write_labels prepend_label
question-written = refl

-- The reply: a record of another type, and the address.
abbrev reply : List ℕ
reply =
    52 ∷ 18 ∷ 1 ∷ 128 ∷ 0 ∷ 1 ∷ 0 ∷ 2 ∷ 0 ∷ 0 ∷ 0 ∷ 0 ∷ 1 ∷ 97 ∷ 1 ∷ 98 ∷ 0 ∷ 0 ∷ 1 ∷ 0 ∷ 1 ∷ 192
    ∷ 12 ∷ 0 ∷ 5 ∷ 0 ∷ 1 ∷ 0 ∷ 0 ∷ 0 ∷ 60 ∷ 0 ∷ 2 ∷ 192 ∷ 12 ∷ 192 ∷ 12 ∷ 0 ∷ 1 ∷ 0 ∷ 1 ∷ 0 ∷ 0 ∷ 0
    ∷ 60 ∷ 0 ∷ 4 ∷ 1 ∷ 2 ∷ 3 ∷ 4 ∷ []

memory : Memory
memory = copy (λ a. 7) 1024 reply

query : Dcd
query = record { xid = 4660; query_type = 256 }

reply-taken : on_recv memory 4 1024 51 query ≡ some (no_error, some (ipv4 67305985))
unfolding memory query copy on_recv after_name read_answers read_answer after_record take_record
    address_in walk_name after_pointer
reply-taken = refl

name-NameAt : NameAt memory 1024 51 3 1036 1041
unfolding memory copy
name-NameAt =
    label 2 1036 1041 (omega arith) (omega arith)
      (label 1 1038 1041 (omega arith) (omega arith) (ends 0 1040 refl))

abbrev answers : List Answer
answers =
    record { name_end = 1047; record_type = 1280; data_length = 2 }
    ∷ record { name_end = 1061; record_type = 256; data_length = 4 }
    ∷ []

memory-IsReply : IsReply memory 4 1024 51 query answers
unfolding memory query copy
memory-IsReply = record {
  success = refl;
  same_xid = refl;
  count = refl;
  depth = 3;
  few = omega arith;
  question_end = 1041;
  question = name-NameAt;
  records_end = 1075;
  records = (
    record {
      depth = 4;
      few = omega arith;
      name =
          pointer 3 1045 1041 (omega arith) (omega arith) (omega arith) name-NameAt (omega arith);
      type = refl;
      body_size = refl;
    },
    (
      record {
        depth = 4;
        few = omega arith;
        name =
            pointer 3 1059 1041 (omega arith) (omega arith) (omega arith) name-NameAt (omega arith);
        type = refl;
        body_size = refl;
      },
      refl,
    ),
  );
  inside = omega arith;
}

on_recv-IsFirst_example :
    (o : Option Address) × (on_recv memory 4 1024 51 query ≡ some (no_error, o))
    × IsFirst memory 256 answers o
unfolding query
on_recv-IsFirst_example =
    on_recv-IsFirst memory 4 1024 51 query answers memory-IsReply (omega arith)

-- The reply, where the memory around it holds other bytes.
other_memory : Memory
other_memory = copy (λ a. 0) 1024 reply

memory-same : (i : ℕ) → 1024 ≤ i → i < 1024 + 51 → memory i ≡ other_memory i
unfolding memory other_memory copy
memory-same i p q =
    let low : leb 1024 i ≡ true = ground arith in
    let high : ltb i (1024 + 51) ≡ true = ground arith in rw (low, high) refl

on_recv_by_message_example : on_recv memory 4 1024 51 query ≡ on_recv other_memory 4 1024 51 query
on_recv_by_message_example = on_recv_by_message memory other_memory 4 1024 51 query memory-same

-- 14 bytes, of which the last two are a pointer to themselves.
abbrev self_pointer : List ℕ
self_pointer = 52 ∷ 18 ∷ 0 ∷ 0 ∷ 0 ∷ 1 ∷ 0 ∷ 1 ∷ 0 ∷ 0 ∷ 0 ∷ 0 ∷ 192 ∷ 12 ∷ []

on_recv_self_example : on_recv (copy (λ a. 7) 1024 self_pointer) 9 1024 14 query ≡ none
unfolding copy query
on_recv_self_example =
    on_recv_self (copy (λ a. 7) 1024 self_pointer) 9 1024 14 query (omega arith) refl refl
      (omega arith) refl refl

dns_write_question_to_buffer-Asks_example :
    Asks
      (copy
        (λ a. 7)
        1024
        (dns_write_question_to_buffer 512 (dotted ((97 ∷ []) ∷ (98 ∷ []) ∷ [])) 256 4660 true).1)
      9
      1024
      256
      4660
      4
      (dns_write_question_to_buffer 512 (dotted ((97 ∷ []) ∷ (98 ∷ []) ∷ [])) 256 4660 true)
dns_write_question_to_buffer-Asks_example =
    dns_write_question_to_buffer-Asks 512 256 4660 true (97 ∷ []) ((98 ∷ []) ∷ [])
      (copy (λ a. 7) 1024
        (dns_write_question_to_buffer 512 (dotted ((97 ∷ []) ∷ (98 ∷ []) ∷ [])) 256 4660 true).1)
      1024 9 (omega arith) (omega arith) (omega arith)
      (
        omega arith,
        omega arith,
        ((λ e. absurd (omega arith)), tt),
        (omega arith, omega arith, ((λ e. absurd (omega arith)), tt), tt),
      )
      (omega arith) (omega arith)
      (Holds-copy (λ a. 7) 1024
        (dns_write_question_to_buffer 512 (dotted ((97 ∷ []) ∷ (98 ∷ []) ∷ [])) 256 4660 true).1)

abbrev no_addresses : ℕ → CrcIpTime
no_addresses i = record { crc = 0; ip = 0; time = 0 }

asked-asking : dns_to_ip (λ s. none) (λ s. none) no_addresses 0 true (97 ∷ []) 256 ≡ asking 97
unfolding dns_to_ip known_ipv4 ask cache_get hash_string
asked-asking = refl

abbrev writes : List Write
writes = record { crc = 5; ip = 9; tick = 2000 } ∷ record { crc = 70; ip = 8; tick = 1000 } ∷ []

last_write : cache_get (after_writes writes) 70 3000 ≡ 8
unfolding cache_get cache_set
last_write = refl

cache_get-Fresh_example :
    (cache_get (after_writes writes) 70 3000 ≡ 0)
    ⊎ Fresh 70 (cache_get (after_writes writes) 70 3000) 3000 writes
cache_get-Fresh_example = cache_get-Fresh writes 70 3000
