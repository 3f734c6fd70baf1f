-- ===== src/Examples/LiveStore.antt =====
-- Messages about machine 2 while machines 1 and 2 are shown, and a socket that fails.
use shatter_nc.Prelude.{ℕ, ◌+◌, ◌≡◌, refl, true, false, some, [], ◌∷◌, length}
use shatter_nc.Prelude.Tests.{nat_eq, string_eq}
use shatter_nc.Prelude.Maps.{lookup, insert, contains}
use shatter_nc.Live.{MachineStatus, Payload, WebSocketMessage, Store, on_message}
use shatter_nc.Live.Merging.{field_of, on_message-status_update}
use shatter_nc.Live.Connection.{
  Connection, ReadyState, connect, on_close, on_open, on_timeout, cleanup, fresh,
}
use shatter_nc.Live.Connection.Alive.Recover.{CanConnect, Reach-CanConnect}
use shatter_nc.Live.Connection.Alive.{Step, Reach, Reach-one_link, cleanup-reconnects}

abbrev machine : ℕ → ℕ → ℕ → MachineStatus ℕ
machine id speed feed = record { machine_id = id; fields = ("speed", speed) ∷ ("feed", feed) ∷ [] }

abbrev store : Store ℕ
store = record { machines = (1, machine 1 100 50) ∷ (2, machine 2 200 60) ∷ []; compressors = [] }

-- what changed of machine 2
abbrev update : MachineStatus ℕ
update = record { machine_id = 2; fields = ("speed", 250) ∷ [] }

-- The feed, which the update does not carry, stays.
on_message-status_update_example :
    (field_of "feed" (
        lookup 2
          (on_message store
            (WebSocketMessage.status_update (some (Payload.machine update)))).machines)
      ≡ some 60)
    × ((on_message store
          (WebSocketMessage.status_update (some (Payload.machine update)))).compressors
        ≡ [])
unfolding lookup
on_message-status_update_example =
    on_message-status_update store (machine 2 200 60) update 2 "feed" refl

-- The socket closes before it opens, and the timer connects again.
lost : Reach (connect true fresh) (on_close 0 (connect true fresh))
unfolding connect lookup insert
lost = Reach.next Reach.here (Step.closed (connect true fresh) 0 ReadyState.connecting refl)

Reach-one_link_example :
    length (on_close 0 (connect true fresh)).sockets
      + length (on_close 0 (connect true fresh)).timers
    ≡ 1
Reach-one_link_example = Reach-one_link lost

-- The connection that was lost before it opened can be made again.
Reach-CanConnect_example : CanConnect (on_close 0 (connect true fresh))
Reach-CanConnect_example = Reach-CanConnect lost

abbrev connected : Connection
connected = on_open 0 (connect true fresh)

cleanup-reconnects_example :
    ((cleanup connected).sockets ≡ insert 0 ReadyState.closing connected.sockets)
    × (contains (on_close 0 (cleanup connected)).timers connected.next ≡ true)
    × ((on_timeout true connected.next (on_close 0 (cleanup connected))).ws_ref
        ≡ some (connected.next + 1))
    × ((on_timeout true connected.next (on_close 0 (cleanup connected))).mounted ≡ false)
unfolding connect on_open
cleanup-reconnects_example = cleanup-reconnects connected 0 refl
