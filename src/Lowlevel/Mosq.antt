-- ===== src/Lowlevel/Mosq.antt =====
-- mosquitto-rs/src/lowlevel.rs: the `Mosq` type, its construction and its end.
use mosquitto_rs.Base.{
  Bool, true, Option, none, some, Str, str, ◌++◌, Result, ok, err, if◌then◌else◌,
}
use mosquitto_rs.Base.Int.{ℤ, show_int}
use mosquitto_rs.Error.{Error, create}
use mosquitto_rs.Lowlevel.Io.{Process, Io}
use mosquitto_rs.Lowlevel.Strings.{cstr}
use mosquitto_rs.Sys.Library.{Library, Trampoline}

pub record LibraryVersion : Type 0 where
  pub major : ℤ
  pub minor : ℤ
  pub revision : ℤ
  pub version : ℤ

-- The `Display` instance.
unfoldable pub version_display : LibraryVersion → Str
version_display v =
    show_int v.minor ++ str "." ++ show_int v.major ++ str "." ++ show_int v.revision

-- `CB` is the type of the callbacks object.
module _ {CB : Type 0} (lib : Library CB) where
  -- `INIT.call_once`.
  unfoldable pub init_library : Process lib.World → Process lib.World
  init_library s =
      if s.initialised
      then s
      else record { initialised = true; world = lib.mosquitto_lib_init s.world }

  -- The numbers start at 0 and are written by the call.
  unfoldable pub lib_version : Process lib.World → LibraryVersion × Process lib.World
  lib_version s =
      let s' = init_library s in
      let (vers, major, minor, revision) = lib.mosquitto_lib_version s'.world in
      (record { major = major; minor = minor; revision = revision; version = vers }, s')

  pub record Mosq : Type 0 where
    pub m : lib.Handle
    pub cb : Option CB

  unfoldable pub set_callbacks : Mosq → Process lib.World → Mosq × Process lib.World
  set_callbacks mosq s =
      let w1 = lib.mosquitto_connect_callback_set mosq.m (some Trampoline.connect) s.world in
      let w2 = lib.mosquitto_disconnect_callback_set mosq.m (some Trampoline.disconnect) w1 in
      let w3 = lib.mosquitto_publish_callback_set mosq.m (some Trampoline.publish) w2 in
      let w4 = lib.mosquitto_subscribe_callback_set mosq.m (some Trampoline.subscribe) w3 in
      let w5 = lib.mosquitto_message_callback_set mosq.m (some Trampoline.message) w4 in
      let w6 = lib.mosquitto_unsubscribe_callback_set mosq.m (some Trampoline.unsubscribe) w5 in
      let w7 = lib.mosquitto_log_callback_set mosq.m (some Trampoline.bridge_logs) w6 in
      (mosq, record s { world = w7 })

  -- What both constructors do with the pointer that `mosquitto_new` returns.
  unfoldable pub from_new :
      CB → Option lib.Handle × lib.World → Process lib.World → Result Mosq Error × Process lib.World
  unfolding set_callbacks
  from_new cb (none, w) s = (err (create (lib.last_os_error w)), record s { world = w })
  from_new cb (some m, w) s =
      let (mosq, s') = set_callbacks (record { m = m; cb = some cb }) (record s { world = w }) in
      (ok mosq, s')

  unfoldable pub with_auto_id : CB → Io (Process lib.World) Mosq
  unfolding init_library from_new
  with_auto_id cb s =
      let s' = init_library s in from_new cb (lib.mosquitto_new none true cb s'.world) s'

  unfoldable pub with_id : CB → Str → Bool → Io (Process lib.World) Mosq
  unfolding init_library from_new
  with_id cb id clean_session s =
      let s' = init_library s in
      elim (cstr id) [
        | err e ↦ (err e, s')
        | ok c ↦ from_new cb (lib.mosquitto_new (some c) clean_session cb s'.world) s'
      ]

  -- `Drop`.
  unfoldable pub drop : Mosq → Process lib.World → Process lib.World
  drop mosq s = record s { world = lib.mosquitto_destroy mosq.m s.world }

  -- `none` is the panic of `expect`.
  unfoldable pub get_callbacks : Mosq → Option CB
  get_callbacks mosq = mosq.cb
