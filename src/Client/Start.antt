-- ===== src/Client/Start.antt =====
-- The constructors of `Client` in mosquitto-rs/src/client.rs: what a failure leaves behind.
use mosquitto_rs.Base.{◌≡◌, ◌⊎◌, false, none, some, [], Result, ok, err}
use mosquitto_rs.Channel.{Documented, Status}
use mosquitto_rs.Client.Data.{Event}
use mosquitto_rs.Client.State.{Platform, Runtime, Handler, new}
use mosquitto_rs.Base.{◌≢◌}
use mosquitto_rs.Base.Int.{pos}
use mosquitto_rs.Error.{Error}
use mosquitto_rs.Error.Codes.{Reports}
use mosquitto_rs.Lowlevel.Io.{Process}
use mosquitto_rs.Lowlevel.Mosq.{Mosq}
use mosquitto_rs.Lowlevel.Mosq as mosq
use mosquitto_rs.Lowlevel.Network as network

-- A channel of which both ends are gone.
abbrev dead_channel : Status Event
dead_channel = record { queue = []; capacity = none; has_sender = false; has_receiver = false }

module _ (p : Platform) (d : Documented p.events) (r : Runtime p) where
  -- What `start` makes of a constructor's result: `mosquitto_loop_start` is called once for a new
  -- handle, and if its code is not 0 `mosquitto_destroy` after it.
  abbrev pub Starts :
      Result (Mosq p.lib) Error × Process p.lib.World
      → Result (Mosq p.lib × Handler p) Error × Runtime p
      → Type 0
  Starts (err e, process) (out, r') =
      (out ≡ err e)
      × (r'.process ≡ process)
      × (d.at r'.event_store (d.tx_id (p.events.unbounded r.event_store).0) ≡ some dead_channel)
  Starts (ok m, process) (out, r') =
      (((p.lib.mosquitto_loop_start m.m process.world).0 ≡ pos 0)
        × (out ≡ ok (m, (new p r).handler))
        × (r'.process.world ≡ (p.lib.mosquitto_loop_start m.m process.world).1))
      ⊎ (((p.lib.mosquitto_loop_start m.m process.world).0 ≢ pos 0)
          × (e : Error) × (out ≡ err e)
          × Reports p.lib (p.lib.mosquitto_loop_start m.m process.world).1
              (p.lib.mosquitto_loop_start m.m process.world).0 e
          × (r'.process.world
              ≡ p.lib.mosquitto_destroy m.m (p.lib.mosquitto_loop_start m.m process.world).1)
          × (d.at r'.event_store (d.tx_id (p.events.unbounded r.event_store).0)
              ≡ some dead_channel))
