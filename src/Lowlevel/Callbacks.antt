-- ===== src/Lowlevel/Callbacks.antt =====
-- mosquitto-rs/src/lowlevel.rs: the C callbacks, and the Rust handlers that they call.
use mosquitto_rs.Base.{ℕ, Bool, ◌==◌, ◌||◌, none, List, map, Str, Bytes, if◌then◌else◌}
use mosquitto_rs.Base.Int.{ℤ, as_u32}
use mosquitto_rs.Base.Utf8.{to_string_lossy}
use mosquitto_rs.Lowlevel.Mosq.{Mosq}
use mosquitto_rs.Lowlevel.Status.{MessageId, QoS, qos_from_int, ConnectionStatus, ReasonCode}
use mosquitto_rs.Sys.{
  mosq_log_notice, mosq_log_info, mosq_log_warning, mosq_log_err, mosq_log_debug,
}
use mosquitto_rs.Sys.Library.{Library}

-- `struct mosquitto_message` with what its pointers show: the bytes of the topic up to its NUL, and
-- `payloadlen` bytes of payload.
pub record MosquittoMessage : Type 0 where
  pub mid : ℤ
  pub topic : Bytes
  pub payload : Bytes
  pub qos : ℤ
  pub retain : Bool

module _ {CB : Type 0} (lib : Library CB) where
  -- The trait, over the state `St` that its handlers change.
  pub record Callbacks (St : Type 0) : Type 0 where
    pub on_connect : Mosq lib → ConnectionStatus → St → St
    pub on_disconnect : Mosq lib → ReasonCode → St → St
    pub on_publish : Mosq lib → MessageId → St → St
    pub on_subscribe : Mosq lib → MessageId → List QoS → St → St
    pub on_message : Mosq lib → MessageId → Str → Bytes → QoS → Bool → St → St
    pub on_unsubscribe : Mosq lib → MessageId → St → St

  -- The trait's default handlers, and so `impl Callbacks for ()`.
  unfoldable pub no_callbacks : {St : Type 0} → Callbacks St
  no_callbacks = record {
    on_connect = λ _ _ s. s;
    on_disconnect = λ _ _ s. s;
    on_publish = λ _ _ s. s;
    on_subscribe = λ _ _ _ s. s;
    on_message = λ _ _ _ _ _ _ s. s;
    on_unsubscribe = λ _ _ s. s;
  }

  -- The client lives for the call only. `mem::forget` ends it without `Drop`, so what `func` leaves is
  -- what there is; the state `St` is whatever the handlers change.
  unfoldable pub with_transient_client : {St : Type 0} → lib.Handle → (Mosq lib → St → St) → St → St
  with_transient_client m func s = func (record { m = m; cb = none }) s

  module _ {St : Type 0} (cb : Callbacks St) (m : lib.Handle) where
    unfoldable pub connect : ℤ → St → St
    unfolding with_transient_client
    connect rc = with_transient_client m λ client. cb.on_connect client (record { code = rc })

    unfoldable pub disconnect : ℤ → St → St
    unfolding with_transient_client
    disconnect rc = with_transient_client m λ client. cb.on_disconnect client (record { code = rc })

    unfoldable pub publish : MessageId → St → St
    unfolding with_transient_client
    publish mid = with_transient_client m λ client. cb.on_publish client mid

    unfoldable pub unsubscribe : MessageId → St → St
    unfolding with_transient_client
    unsubscribe mid = with_transient_client m λ client. cb.on_unsubscribe client mid

    -- `granted_qos` holds the `qos_count` numbers that C passes.
    unfoldable pub subscribe : MessageId → List ℤ → St → St
    unfolding with_transient_client
    subscribe mid granted_qos =
        with_transient_client m λ client. cb.on_subscribe client mid (map qos_from_int granted_qos)

    unfoldable pub message : MosquittoMessage → St → St
    unfolding with_transient_client
    message msg = with_transient_client m λ client.
        cb.on_message client msg.mid (to_string_lossy msg.topic) msg.payload (qos_from_int msg.qos)
          msg.retain

-- `log::Level`.
pub data Level : Type 0 where
  error warn info debug trace : Level

severity : ℕ → Level
severity l =
    if l == mosq_log_notice || l == mosq_log_info
    then info
    else if l == mosq_log_warning
    then warn
    else if l == mosq_log_err
    then error
    else if l == mosq_log_debug
    then debug
    else trace

-- The level and text that `bridge_logs` hands to the logger.
unfoldable pub bridge_logs : ℤ → Bytes → Level × Str
unfolding severity
bridge_logs level message = (severity (as_u32 level), to_string_lossy message)
