-- ===== src/BuildScript/System.antt =====
-- libmosquitto-sys/build.rs without the feature `vendored-mosquitto`: an installed library is used.
use mosquitto_rs.Base.{
  ◌==◌, Bool, true, Option, none, some, List, [], ◌∷◌, ◌++◌, Str, str, if◌then◌else◌,
}
use mosquitto_rs.BuildScript.Cargo.{Env, var, Action, file, compile, println, write}

-- A path that is empty or ends in a slash takes a name with nothing between.
ends_open : Str → Bool
ends_open [] = true
ends_open (c ∷ []) = c == b'/'
ends_open (c ∷ d ∷ s) = ends_open (d ∷ s)

-- `PathBuf::join` with the name of a file.
unfoldable pub join : Str → Str → Str
unfolding ends_open
join dir name = if ends_open dir then dir ++ name else dir ++ b'/' ∷ name

-- A program that only mentions a function of the library.
abbrev pub program : Str
program =
    str
      "\n        #include <mosquitto.h>\n        int testing_mosquitto_linkage(void) {\n          mosquitto_lib_init();\n          return 0;\n        }\n        "

-- `main`, given whether pkg-config finds the library and whether a write succeeds; `none` is the
-- panic of an `unwrap`.
unfoldable pub main : Bool → (Str → Str → Bool) → Env → Option (List Action)
unfolding var join
main found written env = if found then some [] else elim (var env (str "OUT_DIR")) [
  | none ↦ none
  | some out_dir ↦
      let file_name = join out_dir (str "m.c") in
      if written file_name program
      then some (
          write file_name program
          ∷ println (str "cargo:rustc-link-lib=mosquitto")
          ∷ file file_name
          ∷ compile (str "testing")
          ∷ [])
      else none
]
