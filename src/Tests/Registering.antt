-- ===== src/Tests/Registering.antt =====
-- A client of the small world that is made, and called by the functions that it registered.
use mosquitto_rs.Base.{
  ◌+◌, ◌==◌, ◌≡◌, refl, Option, none, false, List, [], ◌∷◌, ◌++◌, map, length, replicate, str,
  if◌then◌else◌,
}
use mosquitto_rs.Base.Int.{pos}
use mosquitto_rs.Base.Utf8.{as_bytes}
use mosquitto_rs.Channel.{ready, pending, closed}
use mosquitto_rs.Client.Delivery.{LibraryCall, connect, disconnect, receive, meaning}
use mosquitto_rs.Client.Incoming.{stream, ended}
use mosquitto_rs.Client.Registered.{fire_all, with_id-fire_all-receive}
use mosquitto_rs.Client.Requests.{subscriber}
use mosquitto_rs.Client.Setup.{with_id}
use mosquitto_rs.Client.State.{Runtime, State, Handler, new}
use mosquitto_rs.Error.{result}
use mosquitto_rs.Lowlevel.Mosq.{init_library, set_callbacks}
use mosquitto_rs.Lowlevel.Mosq as lowlevel
use mosquitto_rs.Lowlevel.Network.{start_loop_thread}
use mosquitto_rs.Lowlevel.Registration.{Registry, kind_code}
use mosquitto_rs.Lowlevel.Strings.{cstr}
use mosquitto_rs.Sys.{err_code}
use mosquitto_rs.Sys.Library.{Trampoline, callback_set}
use mosquitto_rs.Tests.Channels.{documented, open_new}
use mosquitto_rs.Tests.World.{Broker, library, platform, runtime, mosq as client}

abbrev last_set : Trampoline → List (Trampoline × Option Trampoline) → Option Trampoline
last_set kind [] = none
last_set kind ((other, t) ∷ ts) =
    let rest = last_set kind ts in if kind_code kind == kind_code other then t else rest

set_one :
    (m : Unit {0}) (kind other : Trampoline) (t : Option Trampoline) (w : Broker)
    → last_set other (callback_set library kind m t w).callbacks
      ≡ (if kind_code other == kind_code kind then t else last_set other w.callbacks)
set_one m Trampoline.connect other t w = refl
set_one m Trampoline.disconnect other t w = refl
set_one m Trampoline.publish other t w = refl
set_one m Trampoline.subscribe other t w = refl
set_one m Trampoline.message other t w = refl
set_one m Trampoline.unsubscribe other t w = refl
set_one m Trampoline.bridge_logs other t w = refl

abbrev registry : Registry library
registry = record {
  registered = λ w m t. last_set t w.callbacks;
  set_one = set_one;
  loop_start_keeps = λ m u w. refl;
  disconnect_keeps = λ m u w. refl;
}

-- The client that the small world makes, and the state of the process after that.
abbrev start : Runtime platform
start = runtime (pos 0)

abbrev handler : Handler platform
handler = (new platform start).handler

abbrev after : Runtime platform
after = (with_id platform (str "woot") false start).1

abbrev calls : List LibraryCall
calls = connect (pos 0) ∷ disconnect (pos 0) ∷ []

abbrev made : State platform
made = record { handler = handler; runtime = after }

with_id-fire_all-receive_example :
    receive platform documented 0
      (length (stream (map meaning calls)) + 1)
      (fire_all platform registry tt calls made).event_store
    ≡ map ready (stream (map meaning calls))
      ++ replicate 1 (if ended (map meaning calls) then closed else pending)
unfolding with_id lowlevel.with_id cstr as_bytes start_loop_thread result err_code subscriber
    open_new
with_id-fire_all-receive_example =
    with_id-fire_all-receive platform registry documented (str "woot") false start after client
      handler 0 calls 1 refl refl
