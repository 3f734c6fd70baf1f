-- ===== src/Live/Connection/Alive.antt =====
-- While the hook is mounted the connection is never given up and never doubled; the cleanup does not
-- end it.
pub mod Recover
use shatter_nc.Prelude.{
  ℕ, ◌+◌, ◌≡◌, refl, ◌⊎◌, inl, inr, true, false, none, some, List, [], ◌∷◌, ◌++◌, arith, length,
}
use shatter_nc.Prelude.Tests.{nat_eq}
use shatter_nc.Prelude.Maps.{lookup, insert, erase, contains}
use shatter_nc.Live.Connection.{
  ReadyState, Connection, connect, on_open, on_error, on_close, on_timeout, cleanup, drop_timer,
  fresh,
}

contains-last : (ts : List ℕ) (t : ℕ) → contains (ts ++ t ∷ []) t ≡ true
unfolding contains
contains-last [] t = ground arith
contains-last (u ∷ ts) t = ground (arith, contains-last ts t)

-- What the browser may do next: a socket opens, fails or closes, or a timer fires.
pub data Step : Connection → Connection → Type 0 where
  opened :
      (c : Connection) (id : ℕ)
      → lookup id c.sockets ≡ some ReadyState.connecting
      → Step c (on_open id c)
  failed :
      (c : Connection) (id : ℕ) (r : ReadyState)
      → lookup id c.sockets ≡ some r
      → Step c (on_error c)
  closed :
      (c : Connection) (id : ℕ) (r : ReadyState)
      → lookup id c.sockets ≡ some r
      → Step c (on_close id c)
  fired : (c : Connection) (t : ℕ) → contains c.timers t ≡ true → Step c (on_timeout true t c)

pub data Reach (c : Connection) : Connection → Type 0 where
  here : Reach c c
  next : {d e : Connection} → Reach c d → Step d e → Reach c e

-- one socket, which the ref names, and no timer
record Linked (c : Connection) : Type 0 where
  id : ℕ
  state : ReadyState
  only : c.sockets ≡ (id, state) ∷ []
  named : c.ws_ref ≡ some id
  untimed : c.timers ≡ []

-- no socket, and one timer that will connect
record Waiting (c : Connection) : Type 0 where
  timer : ℕ
  none_left : c.sockets ≡ []
  unnamed : c.ws_ref ≡ none
  idle : c.is_connecting_ref ≡ false
  timed : c.timers ≡ timer ∷ []

IsAlive : Connection → Type 0
IsAlive c = Linked c ⊎ Waiting c

start-IsAlive : IsAlive (connect true fresh)
unfolding connect IsAlive insert
start-IsAlive =
    inl
      (record { id = 0; state = ReadyState.connecting; only = refl; named = refl; untimed = refl })

only_id : (j id : ℕ) (s : ReadyState) {r : ReadyState} → lookup id ((j, s) ∷ []) ≡ some r → j ≡ id
unfolding lookup
only_id j id s h = ground arith

insert-only : (j id : ℕ) (s r : ReadyState) → j ≡ id → insert id r ((j, s) ∷ []) ≡ (j, r) ∷ []
unfolding insert
insert-only j id s r h = ground arith

erase-only : (j id : ℕ) (s : ReadyState) → j ≡ id → erase id ((j, s) ∷ []) ≡ []
unfolding erase
erase-only j id s h = ground arith

lookup-none : (id : ℕ) (r : ReadyState) → lookup id [] ≡ some r → ⊥
unfolding lookup
lookup-none id r h = cc

contains-none : (t : ℕ) → contains [] t ≡ true → ⊥
unfolding contains
contains-none t h = cc

fired-timer : (t u : ℕ) → contains (u ∷ []) t ≡ true → drop_timer t (u ∷ []) ≡ []
unfolding contains
fired-timer t u h = ground arith

closed-Waiting :
    (c : Connection) (id : ℕ) (r : ReadyState)
    → lookup id c.sockets ≡ some r
    → Linked c
    → Waiting (on_close id c)
unfolding on_close
closed-Waiting c id r h l =
    let e : l.id ≡ id = only_id l.id id l.state (rw l.only at h) in
    record {
      timer = c.next;
      none_left = rw l.only (erase-only l.id id l.state e);
      unnamed = refl;
      idle = refl;
      timed = rw l.untimed refl;
    }

Step-IsAlive : {c d : Connection} → Step c d → IsAlive c → IsAlive d
unfolding IsAlive on_open on_error on_close on_timeout connect insert
Step-IsAlive (opened c id h) (inl l) =
    let e : l.id ≡ id = only_id l.id id l.state (rw l.only at h) in
    inl (record {
      id = l.id;
      state = ReadyState.open_;
      only = rw l.only (insert-only l.id id l.state ReadyState.open_ e);
      named = l.named;
      untimed = l.untimed;
    })
Step-IsAlive (opened c id h) (inr w) = absurd (lookup-none id _ (rw w.none_left at h))
Step-IsAlive (failed c id r h) (inl l) =
    inl (record { id = l.id; state = l.state; only = l.only; named = l.named; untimed = l.untimed })
Step-IsAlive (failed c id r h) (inr w) = absurd (lookup-none id r (rw w.none_left at h))
Step-IsAlive (closed c id r h) (inl l) = inr (closed-Waiting c id r h l)
Step-IsAlive (closed c id r h) (inr w) = absurd (lookup-none id r (rw w.none_left at h))
Step-IsAlive (fired c t h) (inl l) = absurd (contains-none t (rw l.untimed at h))
Step-IsAlive (fired c t h) (inr w) =
    rw (w.unnamed, w.idle)
      (inl (record {
        id = c.next;
        state = ReadyState.connecting;
        only = rw w.none_left refl;
        named = refl;
        untimed = rw w.timed (fired-timer t w.timer (rw w.timed at h));
      }))

Reach-IsAlive : {c d : Connection} → IsAlive c → Reach c d → IsAlive d
Reach-IsAlive a here = a
Reach-IsAlive a (next r s) = Step-IsAlive s (Reach-IsAlive a r)

IsAlive-count : (c : Connection) → IsAlive c → length c.sockets + length c.timers ≡ 1
unfolding IsAlive
IsAlive-count c (inl l) = rw (l.only, l.untimed) (omega arith)
IsAlive-count c (inr w) = rw (w.none_left, w.timed) (omega arith)

-- From the first connect on, however sockets open, fail and close and timers fire, there is exactly
-- one of two: a socket that has not closed, or a timer that will connect. So the hook never holds two
-- sockets and never stops trying, as long as it stays mounted and `new WebSocket` does not throw.
pub Reach-one_link :
    {c : Connection} → Reach (connect true fresh) c → length c.sockets + length c.timers ≡ 1
Reach-one_link {c} r = IsAlive-count c (Reach-IsAlive start-IsAlive r)

-- A socket that the cleanup closes sets a timer when its close event comes, and that timer opens a
-- new socket, which the ref names, although the hook is not mounted any more.
pub cleanup-reconnects :
    (c : Connection) (id : ℕ)
    → c.ws_ref ≡ some id
    → ((cleanup c).sockets ≡ insert id ReadyState.closing c.sockets)
      × (contains (on_close id (cleanup c)).timers c.next ≡ true)
      × ((on_timeout true c.next (on_close id (cleanup c))).ws_ref ≡ some (c.next + 1))
      × ((on_timeout true c.next (on_close id (cleanup c))).mounted ≡ false)
unfolding cleanup on_close on_timeout connect
cleanup-reconnects c id h = (rw h refl, contains-last _ c.next, refl, refl)
