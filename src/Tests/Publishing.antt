-- ===== src/Tests/Publishing.antt =====
-- The example program in the small world.
use mosquitto_rs.Base.{◌≡◌, refl, arith, false, List, [], ◌∷◌, str}
use mosquitto_rs.Base.Int.{pos}
use mosquitto_rs.Client.Delivery.{LibraryCall, connect, disconnect, publish, subscribe, message}
use mosquitto_rs.Examples.Counting.{calling_all, number, counts, calling_all-number}
use mosquitto_rs.Examples.Publish.{Session, Handlers}
use mosquitto_rs.Lowlevel.Callbacks.{MosquittoMessage}
use mosquitto_rs.Lowlevel.Io.{Process}
use mosquitto_rs.Sys.Library.{Library}
use mosquitto_rs.Tests.World.{Broker, library_of, broker}

abbrev library : Library Handlers
library = library_of

abbrev fresh : Process Broker
fresh = record { initialised = false; world = broker (pos 0) }

abbrev session : Session Broker
session = record { data_ = pos 0; process = fresh }

abbrev hello : MosquittoMessage
hello = record {
  mid = pos 0;
  topic = str "test/topic";
  payload = str "hello!";
  qos = pos 0;
  retain = false;
}

-- The whole of a run.
abbrev calls : List LibraryCall
calls =
    connect (pos 0)
    ∷ subscribe (pos 1) (pos 0 ∷ [])
    ∷ publish (pos 2)
    ∷ message hello
    ∷ disconnect (pos 0)
    ∷ []

calling_all-number_example : (calling_all library tt calls session).data_ ≡ pos 3
unfolding number counts
calling_all-number_example = calling_all-number library tt calls session 0 refl (ground arith)
