-- ===== src/Live/Connection/Alive/Recover.antt =====
-- The connection can always be made again.
use shatter_nc.Prelude.{ℕ, ◌≡◌, refl, inl, inr, true, some, [], ◌∷◌}
use shatter_nc.Prelude.Tests.{nat_eq, ==_refl}
use shatter_nc.Prelude.Maps.{lookup, insert, contains}
use shatter_nc.Live.Connection.{
  ReadyState, Connection, connect, on_open, on_close, on_timeout, fresh,
}
use shatter_nc.Live.Connection.Alive.{
  opened, closed, fired, Reach, here, next, Waiting, IsAlive, start-IsAlive, closed-Waiting,
  Reach-IsAlive,
}

Reach-trans : {c d e : Connection} → Reach c d → Reach d e → Reach c e
Reach-trans r here = r
Reach-trans r (next s t) = next (Reach-trans r s) t

lookup_one : (id : ℕ) (r : ReadyState) → lookup id ((id, r) ∷ []) ≡ some r
unfolding lookup
lookup_one id r = rw (==_refl id) refl

contains_one : (t : ℕ) → contains (t ∷ []) t ≡ true
unfolding contains
contains_one t = rw (==_refl t) refl

-- The states after it of which one is connected.
abbrev pub CanConnect : Connection → Type 0
CanConnect c = (d : Connection) × Reach c d × (d.is_connected ≡ true)

Waiting-CanConnect : (c : Connection) → Waiting c → CanConnect c
unfolding on_timeout connect on_open insert
Waiting-CanConnect c w =
    let dialled = on_timeout true w.timer c in
    (
      on_open c.next dialled,
      next (next here (fired c w.timer (rw w.timed (contains_one w.timer))))
          (opened dialled c.next (rw (w.unnamed, w.idle, w.none_left) (lookup_one c.next _))),
      refl,
    )

IsAlive-CanConnect : (c : Connection) → IsAlive c → CanConnect c
unfolding IsAlive
IsAlive-CanConnect c (inr w) = Waiting-CanConnect c w
IsAlive-CanConnect c (inl l) =
    let found : lookup l.id c.sockets ≡ some l.state = rw l.only (lookup_one l.id l.state) in
    let (d, r, e) = Waiting-CanConnect (on_close l.id c) (closed-Waiting c l.id l.state found l) in
    (d, Reach-trans (next here (closed c l.id l.state found)) r, e)

-- From every state that the hook can get into, however its sockets opened, failed and closed before,
-- there are steps of the browser after which it is connected: it never gets stuck, as long as it
-- stays mounted and `new WebSocket` does not throw.
pub Reach-CanConnect : {c : Connection} → Reach (connect true fresh) c → CanConnect c
Reach-CanConnect {c} r = IsAlive-CanConnect c (Reach-IsAlive start-IsAlive r)
