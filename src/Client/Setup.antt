-- ===== src/Client/Setup.antt =====
-- mosquitto-rs/src/client.rs: the constructors of `Client` and the methods that configure it.
use mosquitto_rs.Base.{Bool, Option, none, some, Str, Bytes, Result, ok, err, if◌then◌else◌}
use mosquitto_rs.Base.Int.{pos}
use mosquitto_rs.Client.Data.{
  ClientOption, protocol_version, receive_maximum, send_maximum, ocsp_required, tls_engine,
  tls_key_form, tls_k_pass_sha1, tls_alpn, version_code,
}
use mosquitto_rs.Client.State.{
  handler_ref, Platform, Handler, Runtime, State, new, on_process, drop_event_tx,
}
use mosquitto_rs.Error.{Error}
use mosquitto_rs.Lowlevel.Io.{Process, Io}
use mosquitto_rs.Lowlevel.Mosq.{Mosq}
use mosquitto_rs.Lowlevel.Mosq as mosq
use mosquitto_rs.Lowlevel.Network as network
use mosquitto_rs.Lowlevel.Options as options
use mosquitto_rs.Lowlevel.Status.{QoS}
use mosquitto_rs.Lowlevel.Strings.{Duration}
use mosquitto_rs.Sys.{MosqOpt}

module _ (p : Platform) where
  -- Dropping a new handler: both ends of its channel go.
  unfoldable pub drop_new : State p → Runtime p
  unfolding drop_event_tx
  drop_new st =
      let store = drop_event_tx p st.subscriber_tx st.event_store in
      record st.runtime {
        event_store = elim st.subscriber_rx [
          | none ↦ store
          | some rx ↦ p.events.drop_receiver rx store
        ];
      }

  -- After a `Mosq` has been made its loop thread is started; a client whose thread does not start
  -- is destroyed.
  unfoldable pub start :
      State p
      → Result (Mosq p.lib) Error × Process p.lib.World
      → Result (Mosq p.lib × Handler p) Error × Runtime p
  unfolding drop_new
  start st (err e, process) =
      (err e, drop_new (record st { runtime = record st.runtime { process = process } }))
  start st (ok m, process) =
      let (r, process') = network.start_loop_thread p.lib m process in
      elim r [
        | ok _ ↦ (ok (m, st.handler), record st.runtime { process = process' })
        | err e ↦ (
          err e,
          drop_new
              (record st { runtime = record st.runtime { process = mosq.drop p.lib m process' } }),
        )
      ]

  unfoldable pub with_id :
      Str → Bool → Runtime p → Result (Mosq p.lib × Handler p) Error × Runtime p
  unfolding new start
  with_id id clean_session r =
      let st = new p r in start st (mosq.with_id p.lib handler_ref id clean_session st.process)

  unfoldable pub with_auto_id : Runtime p → Result (Mosq p.lib × Handler p) Error × Runtime p
  unfolding new start
  with_auto_id r = let st = new p r in start st (mosq.with_auto_id p.lib handler_ref st.process)

  module _ (self : Mosq p.lib) where
    unfoldable pub set_username_and_password : Option Str → Option Str → Io (State p) (Unit {0})
    set_username_and_password username password =
        on_process p (options.set_username_and_password p.lib self username password)

    unfoldable pub set_last_will : Str → Bytes → QoS → Bool → Io (State p) (Unit {0})
    set_last_will topic payload qos retain =
        on_process p (options.set_last_will p.lib self topic payload qos retain)

    unfoldable pub clear_last_will : Io (State p) (Unit {0})
    clear_last_will = on_process p (options.clear_last_will p.lib self)

    unfoldable pub set_option : ClientOption → Io (State p) (Unit {0})
    set_option (protocol_version v) =
        on_process p (options.set_int_option p.lib self MosqOpt.protocol_version (version_code v))
    set_option (receive_maximum v) =
        on_process p (options.set_int_option p.lib self MosqOpt.receive_maximum (pos v))
    set_option (send_maximum v) =
        on_process p (options.set_int_option p.lib self MosqOpt.send_maximum (pos v))
    set_option (ocsp_required v) =
        on_process p
          (options.set_int_option p.lib self MosqOpt.tls_ocsp_required (if v then pos 1 else pos 0))
    set_option (tls_engine e) =
        on_process p (options.set_string_option p.lib self MosqOpt.tls_engine e)
    set_option (tls_key_form e) =
        on_process p (options.set_string_option p.lib self MosqOpt.tls_keyform e)
    set_option (tls_k_pass_sha1 e) =
        on_process p (options.set_string_option p.lib self MosqOpt.tls_engine_kpass_sha1 e)
    set_option (tls_alpn e) = on_process p (options.set_string_option p.lib self MosqOpt.tls_alpn e)

    unfoldable pub configure_tls :
        Option Bytes
        → Option Bytes
        → Option Bytes
        → Option Bytes
        → Option p.lib.Pointer
        → Io (State p) (Unit {0})
    configure_tls ca_file ca_path cert_file key_file pw_callback =
        on_process p
          (options.configure_tls p.lib self ca_file ca_path cert_file key_file pw_callback)

    unfoldable pub set_reconnect_delay : Duration → Duration → Bool → Io (State p) (Unit {0})
    set_reconnect_delay reconnect_delay max_reconnect_delay use_exponential_backoff = on_process p (
        options.set_reconnect_delay p.lib self reconnect_delay max_reconnect_delay
          use_exponential_backoff)
