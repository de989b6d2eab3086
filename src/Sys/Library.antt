-- ===== src/Sys/Library.antt =====
-- The functions of libmosquitto and of the C runtime that the client calls, as a parameter: the
-- `extern "C"` declarations of libmosquitto-sys/src/lib.rs give their types. A call takes and
-- returns the state of that code, `World`, with what it writes through pointers.
use mosquitto_rs.Base.{ℕ, Bool, Option, some, List, [], ◌∷◌, Bytes}
use mosquitto_rs.Base.Int.{ℤ}
use mosquitto_rs.Sys.Codes.{MosqOpt}

-- `std::io::Error` as `last_os_error` makes it.
pub record IoError : Type 0 where
  pub raw_os_error : Option ℤ

-- A string that C reads, without its final NUL; a pointer to one is an `Option`, null is `none`.
pub record CString : Type 0 where
  pub bytes : Bytes

-- The Rust functions that are registered with the C library.
pub data Trampoline : Type 0 where
  connect disconnect publish subscribe message unsubscribe bridge_logs : Trampoline

-- `Obj` is the object behind the user data pointer.
pub record Library (Obj : Type 0) : Type 1 where
  pub World : Type 0
  -- `*mut mosquitto`, not null; `*mut c_void` and function pointers.
  pub Handle : Type 0
  pub Pointer : Type 0
  pub last_os_error : World → IoError
  pub gai_strerror : ℤ → Bytes
  pub mosquitto_lib_init : World → World
  -- The result, and the three numbers written.
  pub mosquitto_lib_version : World → ℤ × ℤ × ℤ × ℤ
  pub mosquitto_new : Option CString → Bool → Obj → World → Option Handle × World
  pub mosquitto_destroy : Handle → World → World
  pub mosquitto_connect_callback_set : Handle → Option Trampoline → World → World
  pub mosquitto_disconnect_callback_set : Handle → Option Trampoline → World → World
  pub mosquitto_publish_callback_set : Handle → Option Trampoline → World → World
  pub mosquitto_subscribe_callback_set : Handle → Option Trampoline → World → World
  pub mosquitto_message_callback_set : Handle → Option Trampoline → World → World
  pub mosquitto_unsubscribe_callback_set : Handle → Option Trampoline → World → World
  pub mosquitto_log_callback_set : Handle → Option Trampoline → World → World
  pub mosquitto_username_pw_set : Handle → Option CString → Option CString → World → ℤ × World
  pub mosquitto_connect_bind : Handle → CString → ℤ → ℤ → Option CString → World → ℤ × World
  pub mosquitto_connect_bind_async : Handle → CString → ℤ → ℤ → Option CString → World → ℤ × World
  pub mosquitto_reconnect : Handle → World → ℤ × World
  pub mosquitto_disconnect : Handle → World → ℤ × World
  -- The result and what `*mid` holds after the call; the first number is what it held before.
  pub mosquitto_publish : Handle → ℤ → CString → ℤ → Bytes → ℤ → Bool → World → ℤ × ℤ × World
  pub mosquitto_subscribe : Handle → ℤ → CString → ℤ → World → ℤ × ℤ × World
  pub mosquitto_unsubscribe : Handle → ℤ → CString → World → ℤ × ℤ × World
  pub mosquitto_will_set : Handle → CString → ℤ → Bytes → ℤ → Bool → World → ℤ × World
  pub mosquitto_will_clear : Handle → World → ℤ × World
  pub mosquitto_loop_forever : Handle → ℤ → ℤ → World → ℤ × World
  pub mosquitto_loop_start : Handle → World → ℤ × World
  pub mosquitto_loop_stop : Handle → Bool → World → ℤ × World
  pub mosquitto_string_option : Handle → MosqOpt → CString → World → ℤ × World
  pub mosquitto_opts_set : Handle → MosqOpt → ℤ → World → ℤ × World
  pub mosquitto_void_option : Handle → MosqOpt → Pointer → World → ℤ × World
  pub mosquitto_tls_set :
      Handle
      → Option CString
      → Option CString
      → Option CString
      → Option CString
      → Option Pointer
      → World
      → ℤ × World
  pub mosquitto_reconnect_delay_set : Handle → ℕ → ℕ → Bool → World → ℤ × World
  pub mosquitto_reason_string : ℤ → Option Bytes
  pub mosquitto_connack_string : ℤ → Option Bytes

module _ {Obj : Type 0} (lib : Library Obj) where
  -- The function that sets the callback of a kind.
  abbrev pub callback_set : Trampoline → lib.Handle → Option Trampoline → lib.World → lib.World
  callback_set connect = lib.mosquitto_connect_callback_set
  callback_set disconnect = lib.mosquitto_disconnect_callback_set
  callback_set publish = lib.mosquitto_publish_callback_set
  callback_set subscribe = lib.mosquitto_subscribe_callback_set
  callback_set message = lib.mosquitto_message_callback_set
  callback_set unsubscribe = lib.mosquitto_unsubscribe_callback_set
  callback_set bridge_logs = lib.mosquitto_log_callback_set

  -- Each of the functions set for its own kind.
  abbrev pub each_set : lib.Handle → List Trampoline → lib.World → lib.World
  each_set m [] w = w
  each_set m (t ∷ ts) w = each_set m ts (callback_set t m (some t) w)

abbrev pub all_kinds : List Trampoline
all_kinds = connect ∷ disconnect ∷ publish ∷ subscribe ∷ message ∷ unsubscribe ∷ bridge_logs ∷ []
