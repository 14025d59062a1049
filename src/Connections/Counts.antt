-- ===== src/Connections/Counts.antt =====
-- References: each endpoint has one for its place in the list and one for each caller that holds it, and
-- none of both once it is deleted.
use camera_udp.Base.{
  refl, ◌∷◌, List, ℕ, ◌+◌, ◌-◌, ◌^◌, ◌≤◌, ◌<◌, ◌≡◌, sym, subst, ap, ◌∙◌, List, [], ◌∷◌, arith, ◌==◌,
  if◌then◌else◌, one, occurs,
}
use camera_udp.Endpoint.{Endpoint}
use camera_udp.Connections.{
  update, add_connection, Table, add_ref, release_ref, remove_all, unlink, notify_disconnect,
  remove_connection,
}

-- `held p` counts the callers that hold a reference to `p`; no code keeps it.
pub record Sound (t : Table) (held : ℕ → ℕ) : Type 0 where
  pub counted : (p : ℕ) → (t.heap p).ref_count ≡ occurs p t.list + held p
  pub once : (p : ℕ) → occurs p t.list ≤ 1
  pub alive : (p : ℕ) → 0 < occurs p t.deleted → occurs p t.list + held p ≡ 0
  pub few : (p : ℕ) → held p < 2 ^ 31

abbrev pub plus : (ℕ → ℕ) → ℕ → ℕ → ℕ
plus held p q = held q + one p q

abbrev pub minus : (ℕ → ℕ) → ℕ → ℕ → ℕ
minus held p q = held q - one p q

pub Sound-eq :
    {t : Table} {held held' : ℕ → ℕ} → ((p : ℕ) → held p ≡ held' p) → Sound t held → Sound t held'
Sound-eq {t} e v = record {
  counted = λ p. v.counted p ∙ ap (λ k. occurs p t.list + k) (e p);
  once = v.once;
  alive = λ p h. sym (ap (λ k. occurs p t.list + k) (e p)) ∙ v.alive p h;
  few = λ p. subst (λ k. k < 2 ^ 31) (e p) (v.few p);
}

pub release_ref-Sound :
    {t : Table} {held : ℕ → ℕ} (p : ℕ)
    → 0 < held p
    → Sound t held
    → Sound (release_ref p t) (minus held p)
unfolding release_ref
release_ref-Sound p pos v = record {
  counted = λ q. ground (arith, v.counted q, v.counted p, v.few p, v.once p);
  once = v.once;
  alive = λ q h. ground (arith, v.counted q, v.counted p, v.few p, v.once p, v.alive q);
  few = λ q. omega (arith, v.few q);
}

pub add_ref-Sound :
    {t : Table} {held : ℕ → ℕ} (p : ℕ)
    → 0 < occurs p t.list + held p
    → held p + 1 < 2 ^ 31
    → Sound t held
    → Sound (add_ref p t) (plus held p)
unfolding add_ref
add_ref-Sound p pos room v = record {
  counted = λ q. ground (arith, v.counted q, v.counted p, v.once p);
  once = v.once;
  alive = λ q h. ground (arith, v.alive q h);
  few = λ q. ground (arith, v.few q);
}

pub notify_disconnect-Sound :
    {t : Table} {held : ℕ → ℕ} (p : ℕ) → Sound t held → Sound (notify_disconnect p t) held
unfolding notify_disconnect
notify_disconnect-Sound p v = record {
  counted = λ q. ground (arith, v.counted q);
  once = v.once;
  alive = v.alive;
  few = v.few;
}

occurs-remove_all :
    (p q : ℕ) (ps : List ℕ) → occurs q (remove_all p ps) ≡ (if p == q then 0 else occurs q ps)
occurs-remove_all p q [] = ground arith
occurs-remove_all p q (r ∷ rs) = let ih = occurs-remove_all p q rs in ground arith

-- The reference of the list passes to the caller.
unlink-Sound :
    {t : Table} {held : ℕ → ℕ} (p : ℕ)
    → 0 < occurs p t.list
    → held p + 1 < 2 ^ 31
    → Sound t held
    → Sound (unlink p t) (plus held p)
unlink-Sound {t} p pos room v = record {
  counted = λ q. let ih = occurs-remove_all p q t.list in ground (arith, v.counted q, v.once q);
  once = λ q. let ih = occurs-remove_all p q t.list in ground (arith, v.once q);
  alive = λ q h. let ih = occurs-remove_all p q t.list in ground (arith, v.alive q h);
  few = λ q. ground (arith, v.few q);
}

-- RemoveConnection of a listed endpoint releases the reference of the list.
pub remove_connection-Sound :
    {t : Table} {held : ℕ → ℕ} (p : ℕ)
    → 0 < occurs p t.list
    → held p + 1 < 2 ^ 31
    → Sound t held
    → Sound (remove_connection p t) held
unfolding remove_connection
remove_connection-Sound {t} {held} p pos room v =
    let self : one p p ≡ 1 = ground arith in
    Sound-eq (λ q. omega arith)
      (release_ref-Sound p (omega (arith, self))
        (notify_disconnect-Sound p (unlink-Sound p pos room v)))

-- Another state of an endpoint, with the same count.
pub replace-Sound :
    {t : Table} {held : ℕ → ℕ} (p : ℕ) (e : Endpoint) (disconnected : List ℕ)
    → e.ref_count ≡ (t.heap p).ref_count
    → Sound t held
    → Sound (record t { heap = update p e t.heap; disconnected = disconnected }) held
replace-Sound p e disconnected same v = record {
  counted = λ q. ground (arith, v.counted q);
  once = v.once;
  alive = v.alive;
  few = v.few;
}

-- A new object with one reference, at an address that nothing knows: the caller holds it, and the list.
pub add_connection-Sound :
    {t : Table} {held : ℕ → ℕ} (p : ℕ) (e : Endpoint)
    → e.ref_count ≡ 1
    → occurs p t.list ≡ 0
    → occurs p t.deleted ≡ 0
    → held p ≡ 0
    → Sound t held
    → Sound (add_connection p (record t { heap = update p e t.heap })) (plus held p)
unfolding add_connection add_ref
add_connection-Sound {t} {held} p e single unlisted undeleted unheld v = record {
  counted = λ q. ground (arith, v.counted q);
  once = λ q. ground (arith, v.once q);
  alive = λ q h. ground (arith, v.alive q h);
  few = λ q. ground (arith, v.few q);
}

pub list-add_connection :
    (p : ℕ) (e : Endpoint) (t : Table)
    → (add_connection p (record t { heap = update p e t.heap })).list ≡ p ∷ t.list
unfolding add_connection add_ref
list-add_connection p e t = refl
