-- ===== src/Tests/World.antt =====
-- A C library small enough to compute with, and clients on it.
use mosquitto_rs.Base.{Bytes, ℕ, ◌+◌, false, Option, none, some, List, [], ◌∷◌}
use mosquitto_rs.Base.Int.{ℤ, pos}
use mosquitto_rs.Client.State.{HandlerRef, handler_ref, Platform, Runtime}
use mosquitto_rs.Lowlevel.Mosq.{Mosq}
use mosquitto_rs.Sys.Library.{Library, Trampoline}
use mosquitto_rs.Tests.Channels.{Store, channels}

-- What `mosquitto_connect_bind` and `mosquitto_loop_start` return, the next message id, and how often
-- the client has asked to disconnect, has destroyed a handle, has initialised the library, and has
-- made a handle; the patterns of its subscriptions; and the functions that were registered.
pub record Broker : Type 0 where
  pub connect_code : ℤ
  pub loop_code : ℤ
  pub next_mid : ℕ
  pub disconnects : ℕ
  pub destroyed : ℕ
  pub inits : ℕ
  pub made : ℕ
  pub patterns : List Bytes
  pub callbacks : List (Trampoline × Option Trampoline)

abbrev accepted : Broker → ℤ × Broker
accepted w = (pos 0, w)

abbrev numbered : Broker → ℤ × ℤ × Broker
numbered w = (pos 0, pos w.next_mid, record w { next_mid = w.next_mid + 1 })

-- The functions that were set, each with the kind that it was set for, from the last.
abbrev set : Trampoline → Unit {0} → Option Trampoline → Broker → Broker
set kind m t w = record w { callbacks = (kind, t) ∷ w.callbacks }

abbrev pub library_of : {Obj : Type 0} → Library Obj
library_of = record {
  World = Broker;
  Handle = Unit;
  Pointer = Unit;
  last_os_error = λ w. record { raw_os_error = none };
  gai_strerror = λ c. b'?' ∷ [];
  mosquitto_lib_init = λ w. record w { inits = w.inits + 1 };
  mosquitto_lib_version = λ w. (pos 2000018, pos 2, pos 0, pos 18);
  mosquitto_new = λ id clean obj w. (some tt, record w { made = w.made + 1 });
  mosquitto_destroy = λ m w. record w { destroyed = w.destroyed + 1 };
  mosquitto_connect_callback_set = set Trampoline.connect;
  mosquitto_disconnect_callback_set = set Trampoline.disconnect;
  mosquitto_publish_callback_set = set Trampoline.publish;
  mosquitto_subscribe_callback_set = set Trampoline.subscribe;
  mosquitto_message_callback_set = set Trampoline.message;
  mosquitto_unsubscribe_callback_set = set Trampoline.unsubscribe;
  mosquitto_log_callback_set = set Trampoline.bridge_logs;
  mosquitto_username_pw_set = λ m u pw. accepted;
  mosquitto_connect_bind = λ m host port keep bind w. (w.connect_code, w);
  mosquitto_connect_bind_async = λ m host port keep bind w. (w.connect_code, w);
  mosquitto_reconnect = λ m w. (w.connect_code, w);
  mosquitto_disconnect = λ m w. (pos 0, record w { disconnects = w.disconnects + 1 });
  mosquitto_publish = λ m mid topic len payload qos retain. numbered;
  mosquitto_subscribe =
      λ m mid sub qos w. numbered (record w { patterns = sub.bytes ∷ w.patterns });
  mosquitto_unsubscribe = λ m mid sub. numbered;
  mosquitto_will_set = λ m topic len payload qos retain. accepted;
  mosquitto_will_clear = λ m. accepted;
  mosquitto_loop_forever = λ m timeout n. accepted;
  mosquitto_loop_start = λ m w. (w.loop_code, w);
  mosquitto_loop_stop = λ m force. accepted;
  mosquitto_string_option = λ m o v. accepted;
  mosquitto_opts_set = λ m o v. accepted;
  mosquitto_void_option = λ m o v. accepted;
  mosquitto_tls_set = λ m a b c d e. accepted;
  mosquitto_reconnect_delay_set = λ m a b e. accepted;
  mosquitto_reason_string = λ c. none;
  mosquitto_connack_string = λ c. none;
}

abbrev pub library : Library HandlerRef
library = library_of

abbrev pub platform : Platform
platform = record { lib = library; conns = channels; acks = channels; events = channels }

abbrev empty : {A : Type 0} → Store A
empty = record { next = 0; chans = λ j. none }

abbrev pub broker : ℤ → Broker
broker code = record {
  connect_code = code;
  loop_code = pos 0;
  next_mid = 1;
  disconnects = 0;
  destroyed = 0;
  inits = 0;
  made = 0;
  patterns = [];
  callbacks = [];
}

-- A process on which nothing has been done, over a broker that answers `connect` with the code.
abbrev pub runtime : ℤ → Runtime platform
runtime code = record {
  process = record { initialised = false; world = broker code };
  conn_store = empty;
  ack_store = empty;
  event_store = empty;
}

abbrev pub mosq : Mosq library
mosq = record { m = tt; cb = some handler_ref }
