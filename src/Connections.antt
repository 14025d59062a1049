-- ===== src/Connections.antt =====
-- The connections of one socket: CClientServerR of camera server/TUDP.cpp (remote camera has the same
-- functions). Endpoints live in a heap at addresses; the list links some of them, newest first. The
-- handlers run one at a time here, each as the code does under its lock and after it.
pub mod Counts
pub mod Handlers
pub mod Timer
pub mod Connect
pub mod Dispatch
pub mod Sample
mod Tests
use camera_udp.Base.{
  ℕ, zero, suc, ◌+◌, ◌%◌, ◌^◌, Bool, true, false, not, ◌&&◌, List, [], ◌∷◌, Option, none, some, ltb,
  ◌==◌, if◌then◌else◌, take,
}
use camera_udp.Rundown.{acquire_alone, rundown_l, release, decrement}
use camera_udp.Endpoint.{Endpoint, Sockaddr, set_disconnect_time, e_inactive_time}

-- `disconnected` has the endpoints on which OnDisconnect was called, and `deleted` those that were
-- deleted, both latest first; a deleted endpoint stays in the heap, so that a later use of it shows.
pub record Table : Type 0 where
  pub list : List ℕ
  pub heap : ℕ → Endpoint
  pub disconnected : List ℕ
  pub deleted : List ℕ

abbrev pub bytes_eq : List ℕ → List ℕ → Bool
bytes_eq [] [] = true
bytes_eq [] (b ∷ bs) = false
bytes_eq (a ∷ xs) [] = false
bytes_eq (a ∷ xs) (b ∷ bs) = (a == b) && bytes_eq xs bs

-- AF_INET with sizeof(SOCKADDR_IN), AF_INET6 with sizeof(SOCKADDR_IN6)
unfoldable pub sockaddr_eq : Sockaddr → Sockaddr → Bool
sockaddr_eq a b =
    if a.family == b.family
    then (if a.family == 2
        then bytes_eq (take 16 a.image) (take 16 b.image)
        else (if a.family == 23 then bytes_eq (take 28 a.image) (take 28 b.image) else false))
    else false

abbrev pub update : ℕ → Endpoint → (ℕ → Endpoint) → ℕ → Endpoint
update p e heap q = if p == q then e else heap q

unfoldable pub add_ref : ℕ → Table → Table
add_ref p t =
    let e = t.heap p in
    record t { heap = update p (record e { ref_count = (e.ref_count + 1) % 2 ^ 32 }) t.heap }

unfoldable pub release_ref : ℕ → Table → Table
release_ref p t =
    let e = t.heap p in
    let n = decrement e.ref_count in
    record t {
      heap = update p (record e { ref_count = n }) t.heap;
      deleted = if n == 0 then p ∷ t.deleted else t.deleted;
    }

abbrev pub remove_all : ℕ → List ℕ → List ℕ
remove_all p [] = []
remove_all p (q ∷ qs) = let rest = remove_all p qs in if p == q then rest else q ∷ rest

-- RemoveEntryList and InitializeListHead: an entry is in the list once, or not at all.
abbrev pub unlink : ℕ → Table → Table
unlink p t = record t { list = remove_all p t.list }

-- The word of an endpoint whose rundown was begun, and whether that completed it.
unfoldable pub notify_word : ℕ → Bool × ℕ
notify_word word = elim (acquire_alone word) [
  | none ↦ (false, word)
  | some (false, v) ↦ (false, v)
  | some (true, v) ↦ release (rundown_l v)
]

unfoldable pub notify_disconnect : ℕ → Table → Table
unfolding notify_word
notify_disconnect p t =
    let e = t.heap p in
    let (completed, word) = notify_word e.rp in
    record t {
      heap = update p (record e { rp = word }) t.heap;
      disconnected = if completed then p ∷ t.disconnected else t.disconnected;
    }

unfoldable pub remove_connection : ℕ → Table → Table
unfolding notify_disconnect release_ref
remove_connection p t = release_ref p (notify_disconnect p (unlink p t))

unfoldable pub add_connection : ℕ → Table → Table
unfolding add_ref
add_connection p t = let t1 = add_ref p t in record t1 { list = p ∷ t1.list }

abbrev pub find : (cookie : ℕ) → (ℕ → Endpoint) → List ℕ → Option ℕ
find cookie heap [] = none
find cookie heap (p ∷ ps) =
    let rest = find cookie heap ps in if cookie == (heap p).cookie then some p else rest

unfoldable pub get : (cookie : ℕ) → Table → Option ℕ × Table
unfolding add_ref
get cookie t =
    if cookie == 0
    then (none, t)
    else elim (find cookie t.heap t.list) [ none ↦ (none, t) | some p ↦ (some p, add_ref p t) ]

-- OnDisconnect after `get`.
unfoldable pub disconnect_found : Sockaddr → Option ℕ × Table → Table
unfolding remove_connection
disconnect_found sa (none, t) = t
disconnect_found sa (some p, t) =
    release_ref p (if sockaddr_eq sa (t.heap p).sa then remove_connection p t else t)

unfoldable pub on_disconnect : (cookie : ℕ) → Sockaddr → Table → Table
on_disconnect cookie sa t = disconnect_found sa (get cookie t)

-- 'GNIP' in both halves
abbrev pub ping_magic : ℕ
ping_magic = 0x474E4950474E4950

unfoldable pub ping_found : (now : ℕ) → Sockaddr → Option ℕ × Table → Table
ping_found now sa (none, t) = t
ping_found now sa (some p, t) = release_ref p (
    if sockaddr_eq sa (t.heap p).sa
    then record t { heap = update p (set_disconnect_time now e_inactive_time (t.heap p)) t.heap }
    else t)

unfoldable pub on_ping : (now magic crc : ℕ) → Sockaddr → Table → Table
on_ping now magic crc sa t =
    let found = get crc t in if magic == ping_magic then ping_found now sa found else t

-- The rest of `Stop`, for the endpoints of a list that is no longer the table's.
unfoldable pub stop_all : List ℕ → Table → Table
stop_all [] t = t
stop_all (p ∷ ps) t = stop_all ps (release_ref p (notify_disconnect p t))

unfoldable pub stop : Table → Table
stop t = stop_all t.list (record t { list = [] })

-- The endpoints that OnTimer unlinks, in the order of its chain: the last of the list first.
abbrev pub expired : (now : ℕ) → (ℕ → Endpoint) → List ℕ → List ℕ → List ℕ
expired now heap [] chain = chain
expired now heap (p ∷ ps) chain =
    expired now heap ps (if ltb (heap p).tick now then p ∷ chain else chain)

abbrev pub unlink_all : List ℕ → Table → Table
unlink_all [] t = t
unlink_all (p ∷ ps) t = unlink_all ps (unlink p t)

-- Disconnect, without the datagram that it sends, and Release.
unfoldable pub disconnect_all : List ℕ → Table → Table
disconnect_all [] t = t
disconnect_all (p ∷ ps) t = disconnect_all ps (release_ref p (remove_connection p t))

unfoldable pub on_timer : (now : ℕ) → Table → Table
on_timer now t =
    let chain = expired now t.heap t.list [] in disconnect_all chain (unlink_all chain t)
