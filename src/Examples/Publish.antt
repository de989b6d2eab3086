-- ===== src/Examples/Publish.antt =====
-- mosquitto-rs/examples/publish.rs, without what it prints.
use mosquitto_rs.Base.{zero, suc, ◌+◌, ◌==◌, false, none, str, Result, ok, err, if◌then◌else◌}
use mosquitto_rs.Base.Int.{ℤ, pos, negsuc}
use mosquitto_rs.Error.{Error}
use mosquitto_rs.Lowlevel.Callbacks.{Callbacks, no_callbacks}
use mosquitto_rs.Lowlevel.Io.{Process, Io, ◌>>=◌}
use mosquitto_rs.Lowlevel.Mosq.{Mosq, with_id, drop}
use mosquitto_rs.Lowlevel.Network.{
  disconnect, subscribe, publish, start_loop_thread, connect_non_blocking,
  loop_until_explicitly_disconnected,
}
use mosquitto_rs.Lowlevel.Status.{QoS, is_successful}
use mosquitto_rs.Sys.Library.{Library}

-- `+= 1` on an `i32`, as a build without overflow checks does it.
unfoldable pub add_one : ℤ → ℤ
add_one (pos n) = if n == 2147483647 then negsuc 2147483647 else pos (n + 1)
add_one (negsuc zero) = pos 0
add_one (negsuc (suc n)) = negsuc n

-- The number in the mutex of `Handlers`, and the process that its methods work on.
pub record Session (World : Type 0) : Type 0 where
  pub data_ : ℤ
  pub process : Process World

-- The object behind the user data pointer.
pub record Handlers : Type 0 where
  pub initial : ℤ

module _ (lib : Library Handlers) where
  unfoldable pub bump : Session lib.World → Session lib.World
  unfolding add_one
  bump s = record s { data_ = add_one s.data_ }

  -- A call whose result is not used.
  unfoldable pub doing :
      {A : Type 0} → Io (Process lib.World) A → Session lib.World → Session lib.World
  doing call s = record s { process = (call s.process).1 }

  -- `impl Callbacks for Handlers`.
  unfoldable pub handlers : Callbacks lib (Session lib.World)
  unfolding bump doing no_callbacks
  handlers = record (no_callbacks lib) {
    on_connect = λ mosq status s.
        if is_successful status
        then bump (doing (subscribe lib mosq (str "test/topic") QoS.at_most_once) s)
        else doing (disconnect lib mosq) s;
    on_publish = λ mosq mid s. bump s;
    on_disconnect = λ mosq reason s. bump s;
    on_subscribe = λ mosq mid granted_qos s.
        doing (publish lib mosq (str "test/topic") (str "hello!") QoS.at_most_once false) s;
    on_message = λ mosq mid topic payload qos retain s. doing (disconnect lib mosq) s;
  }

  -- What `main` does with its client.
  unfoldable pub running : Mosq lib → Io (Process lib.World) (Unit {0})
  running mosq = do
    started ← start_loop_thread lib mosq
    connecting ←
        connect_non_blocking lib mosq (str "localhost") (pos 1883) (record { secs = 5; nanos = 0 })
          none
    loop_until_explicitly_disconnected lib mosq (record { secs = 10; nanos = 0 })

  -- The client is dropped at the end, and when `?` leaves early.
  unfoldable pub finishing :
      Result (Mosq lib) Error × Process lib.World → Result (Unit {0}) Error × Process lib.World
  unfolding running
  finishing (err e, s) = (err e, s)
  finishing (ok mosq, s) = let (r, s') = running mosq s in (r, drop lib mosq s')

  unfoldable pub main : Io (Process lib.World) (Unit {0})
  unfolding finishing
  main s = finishing (with_id lib (record { initial = pos 0 }) (str "woot") false s)
