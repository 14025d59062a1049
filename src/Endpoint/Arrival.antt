-- ===== src/Endpoint/Arrival.antt =====
-- OnData at the buffer that `get` chose, and the arrival of a sequence of packets at one end.
use camera_udp.Base.{
  ℕ, zero, suc, ◌/◌, ◌%◌, ◌<◌, ◌≡◌, refl, sym, inr, ◌∙◌, Bool, true, false, List, [], ◌∷◌, some,
  length, map, get_or,
}
use camera_udp.Endpoint.Buffers.{
  ulong_mod, max_packet_size, EPacket, Msgb, is_zero, assign, modify, get,
}
use camera_udp.Endpoint.{
  Endpoint, Reply, receive, receive_at, receive_found, on_data_with, e_inactive_time,
  set_disconnect_time,
}
use camera_udp.Endpoint.Send.Split.{fragment}
use camera_udp.Endpoint.Slots.{At, Absent, FirstFree}
use camera_udp.Endpoint.Assembly.{In, AllClear, sizes, Waits}

pub is_zero-clear : (bits : List Bool) (i : ℕ) → is_zero bits ≡ true → get_or bits i false ≡ false
is_zero-clear [] i h = refl
is_zero-clear (true ∷ bits) i h = cc
is_zero-clear (false ∷ bits) zero h = refl
is_zero-clear (false ∷ bits) (suc i) h = is_zero-clear bits i h

AllClear-is_zero : (bits : List Bool) (is : List ℕ) → is_zero bits ≡ true → AllClear bits is
AllClear-is_zero bits [] h = tt
AllClear-is_zero bits (i ∷ is) h = (is_zero-clear bits i h, AllClear-is_zero bits is h)

-- A buffer just taken for a message waits for all its fragments.
pub At-assign :
    (bytes order : List ℕ) (m k : ℕ) (bs : List Msgb)
    → sizes (length bytes) order ≡ length bytes
    → ((j : ℕ) → j < length bytes → In (j / max_packet_size) order)
    → Absent m bs
    → FirstFree k bs
    → At (Waits bytes order) m (length bytes) k (modify (assign m (length bytes)) k bs)
At-assign bytes order m k [] sum complete a f = absurd f
At-assign bytes order m zero (b ∷ bs) sum complete (ne, a) f = (
  refl,
  refl,
  record {
    need = sym sum;
    clear = AllClear-is_zero b.bits order f;
    stored = λ j lt. inr (complete j lt);
  },
)
At-assign bytes order m (suc k) (b ∷ bs) sum complete (ne, a) (z, f) =
    (ne, At-assign bytes order m k bs sum complete a f)

module _ (on_user_data : ℕ → List ℕ → ℕ) where
  -- What one buffer does with a packet, the list of buffers does at that buffer's place.
  receive_at-At :
      (P Q : Msgb → Type 0) (partial tick : ℕ) (p : EPacket) (r : Reply) (m cb_msg : ℕ)
      → ((b : Msgb)
          → P b
          → (b' : Msgb) × (receive on_user_data partial 0 tick p b ≡ (r, b'))
            × (b'.m ≡ b.m)
            × (b'.cb_msg ≡ b.cb_msg)
            × Q b')
      → (k : ℕ) (bs : List Msgb) → At P m cb_msg k bs
      → (bs' : List Msgb) × (receive_at on_user_data partial 0 tick p k bs ≡ (r, bs'))
        × At Q m cb_msg k bs'
  unfolding receive_at
  receive_at-At P Q partial tick p r m cb_msg step k [] h = absurd h
  receive_at-At P Q partial tick p r m cb_msg step zero (b ∷ bs) (e, f, h) =
      let (b', eq, em, ec, q) = step b h in (b' ∷ bs, rw eq refl, (em ∙ e, ec ∙ f, q))
  receive_at-At P Q partial tick p r m cb_msg step (suc k) (b ∷ bs) (ne, h) =
      let (bs', eq, h') = receive_at-At P Q partial tick p r m cb_msg step k bs h in
      (b ∷ bs', rw eq refl, (ne, h'))

  -- `OnData` when `get` finds or assigns the buffer `k`.
  pub on_data-At :
      (P Q : Msgb → Type 0) (partial now : ℕ) (p : EPacket) (r : Reply) (e : Endpoint)
      (bs bs1 : List Msgb) (k : ℕ)
      → ((b : Msgb)
          → P b
          → (b' : Msgb) × (receive on_user_data partial 0 (now % ulong_mod) p b ≡ (r, b'))
            × (b'.m ≡ b.m)
            × (b'.cb_msg ≡ b.cb_msg)
            × Q b')
      → e.bits ≡ 0
      → e.msgbs ≡ some bs
      → get p.m p.msg_length (now % ulong_mod) bs ≡ (some k, bs1)
      → At P p.m p.msg_length k bs1
      → (e' : Endpoint) × (bs' : List Msgb) × (on_data_with on_user_data partial now p e ≡ (r, e'))
        × (e'.bits ≡ 0)
        × (e'.msgbs ≡ some bs')
        × At Q p.m p.msg_length k bs'
  unfolding on_data_with receive_found
  on_data-At P Q partial now p r e bs bs1 k step eb em eg h =
      let (bs', eq, h') =
        receive_at-At P Q partial (now % ulong_mod) p r p.m p.msg_length step k bs1 h in
      (
        record (set_disconnect_time now e_inactive_time e) { msgbs = some bs' },
        bs',
        rw (em, eg, eb, eq) refl,
        eb,
        refl,
        h',
      )

-- Packets that reach one end, each with the time of its arrival: the replies, and the endpoint after
-- the last.
unfoldable pub arrive :
    (ℕ → EPacket → Endpoint → Reply × Endpoint)
    → List (ℕ × EPacket)
    → Endpoint
    → List Reply × Endpoint
arrive handler [] e = ([], e)
arrive handler ((now, p) ∷ ps) e =
    let (r, e') = handler now p e in let (rs, e'') = arrive handler ps e' in (r ∷ rs, e'')

pub arrive-nil :
    (handler : ℕ → EPacket → Endpoint → Reply × Endpoint) (e : Endpoint)
    → arrive handler [] e ≡ ([], e)
unfolding arrive
arrive-nil handler e = refl

pub arrive-cons :
    (handler : ℕ → EPacket → Endpoint → Reply × Endpoint) (now : ℕ) (p : EPacket)
    (ps : List (ℕ × EPacket)) {e e1 e2 : Endpoint} {r : Reply} {rs : List Reply}
    → handler now p e ≡ (r, e1)
    → arrive handler ps e1 ≡ (rs, e2)
    → arrive handler ((now, p) ∷ ps) e ≡ (r ∷ rs, e2)
unfolding arrive
arrive-cons handler now p ps h g = rw (h, g) refl

-- The fragments of a message, by time of arrival and index.
abbrev pub packets : (type m : ℕ) → List ℕ → List (ℕ × ℕ) → List (ℕ × EPacket)
packets type m bytes = map λ a. (a.0, fragment type m bytes a.1)

abbrev pub indices : List (ℕ × ℕ) → List ℕ
indices = map λ a. a.1
