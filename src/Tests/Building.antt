-- ===== src/Tests/Building.antt =====
-- Build scripts in concrete environments.
use mosquitto_rs.Base.{
  ◌≡◌, refl, ◌↔◌, ◌⊎◌, Bool, true, false, Option, none, some, List, [], ◌∷◌, Str, str,
  if◌then◌else◌,
}
use mathlib.Core.Option
use mosquitto_rs.Base.Utf8.{from_utf8, as_bytes}
use mosquitto_rs.BuildScript.Cargo.{
  Env, var, Action, write, linked, compiled, defined, included, starts_with,
}
use mosquitto_rs.BuildScript.Installed.{system_cases}
use mosquitto_rs.BuildScript.Linking.{Finds, libraries, macros, directories, main_cases}
use mosquitto_rs.BuildScript.System.{join, program}
use mosquitto_rs.BuildScript.System as system
use mosquitto_rs.BuildScript.Texts.{Contains}
use mosquitto_rs.BuildScript.Vendored.{sources, main}

-- A target of Windows, and two directories of OpenSSL.
abbrev env : Env
env name =
    if starts_with (str "TARGET") name
    then some (str "x86_64-pc-windows-msvc")
    else if starts_with (str "OUT") name
    then some (str "/tmp/out")
    else some (str "/o:/p")

main_cases_example :
    ((var env (str "TARGET") ≡ none) × (main env ≡ none))
    ⊎ ((target : Str) × (acts : List Action) × (windows : Bool) × (path : Option Str) × (var env
            (str "TARGET")
          ≡ some target)
        × (main env ≡ some acts)
        × ((windows ≡ true) ↔ Contains (str "windows") target)
        × Finds env path
        × (linked acts ≡ libraries windows path)
        × (defined acts ≡ macros windows path)
        × (included acts ≡ directories windows path)
        × (compiled acts ≡ sources))
main_cases_example = main_cases env

system_cases_example :
    ((false ≡ true) × (system.main false (λ name text. true) env ≡ some []))
    ⊎ ((false ≡ false)
        × (var env (str "OUT_DIR") ≡ none)
        × (system.main false (λ name text. true) env ≡ none))
    ⊎ ((dir : Str) × (false ≡ false)
        × (var env (str "OUT_DIR") ≡ some dir)
        × (true ≡ false)
        × (system.main false (λ name text. true) env ≡ none))
    ⊎ ((dir : Str) × (rest : List Action) × (false ≡ false)
        × (var env (str "OUT_DIR") ≡ some dir)
        × (true ≡ true)
        × (system.main false (λ name text. true) env
            ≡ some (write (join dir (str "m.c")) program ∷ rest))
        × (compiled rest ≡ join dir (str "m.c") ∷ [])
        × (linked rest ≡ str "mosquitto" ∷ []))
system_cases_example = system_cases false (λ name text. true) env

-- The choices at the example.
linked_test : Option.map linked (main env) ≡ some (libraries true (some (str "/o")))
unfolding main linked libraries from_utf8 as_bytes
linked_test = refl
