-- ===== src/BuildScript/Cargo.antt =====
-- What libmosquitto-sys/build.rs reads and does: environment variables, and calls that configure the
-- C compiler or print lines for Cargo, as on Unix.
use mosquitto_rs.Base.{
  ◌==◌, Bool, true, false, ◌&&◌, ◌||◌, Option, none, some, List, [], ◌∷◌, ◌++◌, Str, Bytes, str,
  if◌then◌else◌,
}
use mosquitto_rs.Base.Utf8.{from_utf8}

-- The variables that are set, and their bytes: `std::env::var_os`.
abbrev pub Env : Type 0
Env = Str → Option Bytes

-- `std::env::var`: a variable that is unset or not UTF-8 gives no text.
unfoldable pub var : Env → Str → Option Str
var env name = elim (env name) [ none ↦ none | some value ↦ from_utf8 value ]

-- The first item of `std::env::split_paths`: what stands before the first colon.
unfoldable pub first_path : Bytes → Bytes
first_path [] = []
first_path (b ∷ bs) = if b == b':' then [] else b ∷ first_path bs

unfoldable pub starts_with : Str → Str → Bool
starts_with [] s = true
starts_with (p ∷ ps) [] = false
starts_with (p ∷ ps) (c ∷ s) = p == c && starts_with ps s

-- `str::contains`, the text that is searched for first.
unfoldable pub contains : Str → Str → Bool
unfolding starts_with
contains p [] = starts_with p []
contains p (c ∷ s) = starts_with p (c ∷ s) || contains p s

-- A call of a method of `cc::Build`, a file that is written, or a line that is printed.
pub data Action : Type 0 where
  include file define flag compile println : Str → Action
  warnings : Bool → Action
  write : Str → Str → Action

-- What the actions ask for, in their order: macros without a value, directories, source files and
-- libraries to link.
unfoldable pub defined : List Action → List Str
defined [] = []
defined (a ∷ acts) = elim a [ define d ↦ d ∷ defined acts | _ ↦ defined acts ]

unfoldable pub included : List Action → List Str
included [] = []
included (a ∷ acts) = elim a [ include d ↦ d ∷ included acts | _ ↦ included acts ]

unfoldable pub compiled : List Action → List Str
compiled [] = []
compiled (a ∷ acts) = elim a [ file f ↦ f ∷ compiled acts | _ ↦ compiled acts ]

unfoldable pub strip_prefix : Str → Str → Option Str
strip_prefix [] s = some s
strip_prefix (p ∷ ps) [] = none
strip_prefix (p ∷ ps) (c ∷ s) = if p == c then strip_prefix ps s else none

unfoldable pub links : Str → List Str
unfolding strip_prefix
links line = elim (strip_prefix (str "cargo:rustc-link-lib=") line) [
  | none ↦ []
  | some library ↦ library ∷ []
]

unfoldable pub linked : List Action → List Str
unfolding links
linked [] = []
linked (a ∷ acts) = elim a [ println line ↦ links line ++ linked acts | _ ↦ linked acts ]
