-- ===== src/Live/Connection.antt =====
-- The connection: `connect`, the socket's handlers and the cleanup of `useWebSocket`.
pub mod Alive
use shatter_nc.Prelude.{
  ℕ, ◌+◌, Bool, true, false, not, ◌&&◌, ◌||◌, Option, none, some, List, [], ◌∷◌, ◌++◌,
  if◌then◌else◌, filter, ◌≡◌, nat_beq,
}
use shatter_nc.Prelude.Tests.{nat_eq}
use shatter_nc.Prelude.Maps.{Map, lookup, insert, erase}

-- the states of a socket that has not closed yet
pub data ReadyState : Type 0 where
  connecting open_ closing : ReadyState

-- The three refs of the hook, what it shows, and what the browser holds for it: the sockets that
-- have not closed, and the timers that have not fired. Sockets and timers are numbered.
pub record Connection : Type 0 where
  pub ws_ref : Option ℕ
  pub reconnect_timeout_ref : Option ℕ
  pub is_connecting_ref : Bool
  pub is_connected : Bool
  pub sockets : Map ℕ ReadyState
  pub timers : List ℕ
  pub next : ℕ
  pub mounted : Bool

abbrev pub is_open : Option ReadyState → Bool
is_open (some ReadyState.open_) = true
is_open _ = false

-- `wsRef.current?.readyState === WebSocket.OPEN`
abbrev pub ref_open : Option ℕ → Map ℕ ReadyState → Bool
ref_open none sockets = false
ref_open (some id) sockets = is_open (lookup id sockets)

-- `works` says whether `new WebSocket(url)` returns; if it throws, the error is logged.
unfoldable pub connect : Bool → Connection → Connection
connect works c =
    if ref_open c.ws_ref c.sockets || c.is_connecting_ref
    then c
    else if works
    then record c {
      is_connecting_ref = true;
      ws_ref = some c.next;
      sockets = insert c.next ReadyState.connecting c.sockets;
      next = c.next + 1;
    }
    else record c { is_connecting_ref = true }

unfoldable pub on_open : ℕ → Connection → Connection
on_open id c = record c {
  sockets = insert id ReadyState.open_ c.sockets;
  is_connected = true;
  is_connecting_ref = false;
}

unfoldable pub on_error : Connection → Connection
on_error c = record c { is_connecting_ref = false }

-- the socket is gone, and a timer of five seconds is set
unfoldable pub on_close : ℕ → Connection → Connection
on_close id c = record c {
  sockets = erase id c.sockets;
  is_connected = false;
  ws_ref = none;
  is_connecting_ref = false;
  timers = c.timers ++ c.next ∷ [];
  reconnect_timeout_ref = some c.next;
  next = c.next + 1;
}

abbrev pub drop_timer : ℕ → List ℕ → List ℕ
drop_timer t = filter (λ (u : ℕ). not (nat_beq u t))

unfoldable pub on_timeout : Bool → ℕ → Connection → Connection
unfolding connect
on_timeout works t c = connect works (record c { timers = drop_timer t c.timers })

abbrev pub clear_timeout : Option ℕ → List ℕ → List ℕ
clear_timeout none timers = timers
clear_timeout (some t) timers = drop_timer t timers

-- `close()` starts the closing handshake of the socket; its close event comes later
abbrev pub close_ref : Option ℕ → Map ℕ ReadyState → Map ℕ ReadyState
close_ref none sockets = sockets
close_ref (some id) sockets = insert id ReadyState.closing sockets

unfoldable pub cleanup : Connection → Connection
cleanup c = record c {
  timers = clear_timeout c.reconnect_timeout_ref c.timers;
  sockets = close_ref c.ws_ref c.sockets;
  mounted = false;
}

abbrev pub fresh : Connection
fresh = record {
  ws_ref = none;
  reconnect_timeout_ref = none;
  is_connecting_ref = false;
  is_connected = false;
  sockets = [];
  timers = [];
  next = 0;
  mounted = true;
}
