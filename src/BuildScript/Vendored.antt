-- ===== src/BuildScript/Vendored.antt =====
-- libmosquitto-sys/build.rs with the feature `vendored-mosquitto`: the sources of the C library are
-- compiled.
use mosquitto_rs.Base.{
  false, not, Option, none, some, List, [], ◌∷◌, ◌++◌, map, Str, str, if◌then◌else◌, ltb, length,
}
use mathlib.Core.Option
use mosquitto_rs.Base.Utf8.{as_bytes, from_utf8}
use mosquitto_rs.BuildScript.Cargo.{
  Env, var, first_path, contains, Action, include, file, define, flag, compile, println, warnings,
}

-- The list that the script gives to `files`.
abbrev pub sources : List Str
sources =
    str "mosquitto/lib/actions.c"
    ∷ str "mosquitto/lib/callbacks.c"
    ∷ str "mosquitto/lib/connect.c"
    ∷ str "mosquitto/lib/handle_auth.c"
    ∷ str "mosquitto/lib/handle_connack.c"
    ∷ str "mosquitto/lib/handle_disconnect.c"
    ∷ str "mosquitto/lib/handle_ping.c"
    ∷ str "mosquitto/lib/handle_pubackcomp.c"
    ∷ str "mosquitto/lib/handle_publish.c"
    ∷ str "mosquitto/lib/handle_pubrec.c"
    ∷ str "mosquitto/lib/handle_pubrel.c"
    ∷ str "mosquitto/lib/handle_suback.c"
    ∷ str "mosquitto/lib/handle_unsuback.c"
    ∷ str "mosquitto/lib/helpers.c"
    ∷ str "mosquitto/lib/logging_mosq.c"
    ∷ str "mosquitto/lib/loop.c"
    ∷ str "mosquitto/lib/memory_mosq.c"
    ∷ str "mosquitto/lib/messages_mosq.c"
    ∷ str "mosquitto/lib/misc_mosq.c"
    ∷ str "mosquitto/lib/mosquitto.c"
    ∷ str "mosquitto/lib/net_mosq.c"
    ∷ str "mosquitto/lib/net_mosq_ocsp.c"
    ∷ str "mosquitto/lib/options.c"
    ∷ str "mosquitto/lib/packet_datatypes.c"
    ∷ str "mosquitto/lib/packet_mosq.c"
    ∷ str "mosquitto/lib/property_mosq.c"
    ∷ str "mosquitto/lib/read_handle.c"
    ∷ str "mosquitto/lib/send_connect.c"
    ∷ str "mosquitto/lib/send_disconnect.c"
    ∷ str "mosquitto/lib/send_mosq.c"
    ∷ str "mosquitto/lib/send_publish.c"
    ∷ str "mosquitto/lib/send_subscribe.c"
    ∷ str "mosquitto/lib/send_unsubscribe.c"
    ∷ str "mosquitto/lib/socks_mosq.c"
    ∷ str "mosquitto/lib/srv_mosq.c"
    ∷ str "mosquitto/lib/strings_mosq.c"
    ∷ str "mosquitto/lib/thread_mosq.c"
    ∷ str "mosquitto/lib/time_mosq.c"
    ∷ str "mosquitto/lib/tls_mosq.c"
    ∷ str "mosquitto/lib/utf8_mosq.c"
    ∷ str "mosquitto/lib/util_mosq.c"
    ∷ str "mosquitto/lib/util_topic.c"
    ∷ str "mosquitto/lib/will_mosq.c"
    ∷ []

-- The test of the target, with its two branches.
unfoldable pub platform_flags : Str → List Action
unfolding contains
platform_flags target =
    if not (contains (str "windows") target)
    then flag (str "-fvisibility=hidden") ∷ define (str "WITH_UNIX_SOCKETS") ∷ []
    else include (str "mosquitto/..")
      ∷ println (str "cargo:rerun-if-changed=pthread.h")
      ∷ define (str "WIN32")
      ∷ define (str "_CRT_SECURE_NO_WARNINGS")
      ∷ define (str "_CRT_NONSTDC_NO_DEPRECATE")
      ∷ define (str "LIBMOSQUITTO_STATIC")
      ∷ println (str "cargo:rustc-link-lib=crypt32")
      ∷ []

-- What the script does with a path that is not empty.
unfoldable pub tls_flags : Str → Str → List Action
unfolding contains
tls_flags target path =
    include path
    ∷ define (str "WITH_TLS")
    ∷ define (str "WITH_TLS_PSK")
    ∷ define (str "WITH_EC")
    ∷ (if not (contains (str "windows") target)
        then println (str "cargo:rustc-link-lib=ssl")
          ∷ println (str "cargo:rustc-link-lib=crypto")
          ∷ []
        else println (str "cargo:rustc-link-lib=static=libssl")
          ∷ println (str "cargo:rustc-link-lib=static=libcrypto")
          ∷ println (str "cargo:rustc-link-lib=user32")
          ∷ [])

-- The three nested `if let` on the directory of OpenSSL's headers, and the test of its length.
unfoldable pub openssl_flags : Env → Str → List Action
unfolding tls_flags first_path
openssl_flags env target = elim (env (str "DEP_OPENSSL_INCLUDE")) [
  | none ↦ []
  | some paths ↦ elim (from_utf8 (first_path paths)) [
    | none ↦ []
    | some path ↦ if ltb 0 (length (as_bytes path)) then tls_flags target path else []
  ]
]

-- What is done once the target is known.
unfoldable pub build : Env → Str → List Action
unfolding platform_flags openssl_flags
build env target =
    include (str "mosquitto")
    ∷ include (str "mosquitto/include")
    ∷ include (str "mosquitto/deps")
    ∷ include (str "mosquitto/lib")
    ∷ (map file sources
        ++ define (str "WITH_THREADING")
          ∷ (platform_flags target
              ++ warnings false
                ∷ println (str "cargo:rerun-if-env-changed=DEP_OPENSSL_INCLUDE")
                ∷ (openssl_flags env target ++ compile (str "mosquitto") ∷ [])))

-- `main`; `none` is the panic of `unwrap`.
unfoldable pub main : Env → Option (List Action)
unfolding var build
main env = Option.map (build env) (var env (str "TARGET"))
