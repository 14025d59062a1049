-- ===== src/Dns/Cache.antt =====
-- What DnsCache gives after any writes to it.
use camera_udp.Base.{
  ℕ, ◌+◌, ◌%◌, ◌^◌, ◌<◌, ◌≡◌, ◌≢◌, refl, sym, ◌∙◌, subst, ◌⊎◌, inl, inr, false, List, [], ◌∷◌,
  arith, ltb, ◌==◌, Bool-cases,
}
use camera_udp.Dns.Lookup.{CrcIpTime, cache_get, cache_set}

-- A call of set: the name's hash, the address and the clock.
pub record Write : Type 0 where
  pub crc : ℕ
  pub ip : ℕ
  pub tick : ℕ

-- The static array is zero at first, and the last write comes first.
abbrev pub after_writes : List Write → ℕ → CrcIpTime
after_writes [] i = record { crc = 0; ip = 0; time = 0 }
after_writes (w ∷ ws) i = cache_set (after_writes ws) w.crc w.ip w.tick i

-- The last write to the place of `crc` was one for `crc` itself, and is not too old.
abbrev pub Fresh : (crc ip tick : ℕ) → List Write → Type 0
Fresh crc ip tick [] = ⊥
Fresh crc ip tick (w ∷ ws) =
    ((w.crc ≡ crc) × (w.ip ≡ ip) × (tick < (w.tick + 100000) % 2 ^ 32))
    ⊎ ((w.crc % 64 ≢ crc % 64) × Fresh crc ip tick ws)

cache_get_elsewhere :
    (w : Write) (ws : List Write) (crc tick : ℕ)
    → (crc % 64 == w.crc % 64) ≡ false
    → cache_get (after_writes (w ∷ ws)) crc tick ≡ cache_get (after_writes ws) crc tick
unfolding cache_get cache_set
cache_get_elsewhere w ws crc tick e = rw e refl

-- After any writes, DnsCache::get gives 0, or the address that was written last at the place of the
-- hash, if that was for the same hash and its time, the clock of the write and 100 seconds, is not over.
pub cache_get-Fresh :
    (ws : List Write) (crc tick : ℕ)
    → (cache_get (after_writes ws) crc tick ≡ 0)
      ⊎ Fresh crc (cache_get (after_writes ws) crc tick) tick ws
unfolding cache_get cache_set
cache_get-Fresh [] crc tick =
    let old : ltb tick 0 ≡ false = ground arith in
    elim (Bool-cases (0 == crc)) [ inl e ↦ inl (rw (e, old) refl) | inr e ↦ inl (rw e refl) ]
cache_get-Fresh (w ∷ ws) crc tick = elim (Bool-cases (crc % 64 == w.crc % 64)) [
  | inl e ↦ rw e (elim (Bool-cases (w.crc == crc)) [
    | inl f ↦ elim (Bool-cases (ltb tick ((w.tick + 100000) % 2 ^ 32))) [
      | inl g ↦ rw (f, g) (inr (inl (ground (arith, f), refl, ground (arith, g))))
      | inr g ↦ rw (f, g) (inl refl)
    ]
    | inr f ↦ rw f (inl refl)
  ])
  | inr e ↦
      let k = cache_get_elsewhere w ws crc tick e in
      elim (cache_get-Fresh ws crc tick) [
        | inl z ↦ inl (k ∙ z)
        | inr h ↦ inr (inr (ground (arith, e), subst (λ ip. Fresh crc ip tick ws) (sym k) h))
      ]
]
