-- ===== src/BuildScript/Linking.antt =====
-- What libmosquitto-sys/build.rs makes of its environment.
use mosquitto_rs.Base.{
  ℕ, ◌≡◌, ◌≢◌, refl, ap, ◌∙◌, ◌↔◌, ◌⊎◌, inl, inr, Bool, true, false, Option, none, some, List, [],
  ◌∷◌, ◌++◌, Str, Bytes, All, str, length, length-append, ltb, arith, Bool-cases, Option-cases,
  if◌then◌else◌,
}
use mosquitto_rs.Base.Utf8.Decoding.{from_utf8-some}
use mosquitto_rs.Base.Utf8.{
  IsChar, from_utf8-as_bytes, as_bytes, from_utf8, encode_char, length-encode_char,
}
use mosquitto_rs.BuildScript.Cargo.{
  Env, var, first_path, contains, Action, defined, included, compiled, linked, links, strip_prefix,
}
use mosquitto_rs.BuildScript.Vendored.{
  sources, platform_flags, tls_flags, openssl_flags, build, main,
}
use mosquitto_rs.BuildScript.Texts.{
  Contains, contains_iff, Ends, HasNoColon, first_path-HasNoColon, first_path-append,
}

-- The directory of the headers of OpenSSL: the first path of the variable, if it is a text and not
-- empty.
abbrev pub IsTlsPath : Env → Str → Type 0
IsTlsPath env path =
    (rest : Bytes) × (env (str "DEP_OPENSSL_INCLUDE") ≡ some (as_bytes path ++ rest))
    × HasNoColon (as_bytes path)
    × Ends rest
    × All IsChar path
    × (path ≢ [])

abbrev pub Finds : Env → Option Str → Type 0
Finds env none = ((path : Str) × IsTlsPath env path) → ⊥
Finds env (some path) = IsTlsPath env path

-- The libraries to link, the macros and the directories with headers.
unfoldable pub libraries : Bool → Option Str → List Str
libraries true none = str "crypt32" ∷ []
libraries true (some path) =
    str "crypt32" ∷ str "static=libssl" ∷ str "static=libcrypto" ∷ str "user32" ∷ []
libraries false none = []
libraries false (some path) = str "ssl" ∷ str "crypto" ∷ []

unfoldable pub macros : Bool → Option Str → List Str
macros windows path =
    str "WITH_THREADING"
    ∷ ((if windows
          then str "WIN32"
            ∷ str "_CRT_SECURE_NO_WARNINGS"
            ∷ str "_CRT_NONSTDC_NO_DEPRECATE"
            ∷ str "LIBMOSQUITTO_STATIC"
            ∷ []
          else str "WITH_UNIX_SOCKETS" ∷ [])
        ++ elim path [
          | none ↦ []
          | some p ↦ str "WITH_TLS" ∷ str "WITH_TLS_PSK" ∷ str "WITH_EC" ∷ []
        ])

unfoldable pub directories : Bool → Option Str → List Str
directories windows path =
    str "mosquitto"
    ∷ str "mosquitto/include"
    ∷ str "mosquitto/deps"
    ∷ str "mosquitto/lib"
    ∷ ((if windows then str "mosquitto/.." ∷ [] else [])
        ++ elim path [ none ↦ [] | some p ↦ p ∷ [] ])

-- The same choice with the path given.
flags_of : Str → Option Str → List Action
flags_of target none = []
flags_of target (some path) = tls_flags target path

IsTlsPath-first_path :
    (env : Env) (paths : Bytes) (path : Str)
    → env (str "DEP_OPENSSL_INCLUDE") ≡ some paths
    → IsTlsPath env path
    → (from_utf8 (first_path paths) ≡ some path) × (path ≢ [])
IsTlsPath-first_path env paths path e (rest, f, free, ends, scalars, nonempty) =
    let same : paths ≡ as_bytes path ++ rest = cc (e, f) in
    let first : first_path paths ≡ as_bytes path =
      rw same (first_path-append (as_bytes path) rest free ends) in
    (rw first (from_utf8-as_bytes path scalars), nonempty)

length-as_bytes : (c : ℕ) (s : Str) → ltb 0 (length (as_bytes (c ∷ s))) ≡ true
unfolding as_bytes
length-as_bytes c s =
    ground (arith, length-append (encode_char c) (as_bytes s), length-encode_char c)

openssl_flags-Finds :
    (env : Env) (target : Str)
    → (path : Option Str) × Finds env path × (openssl_flags env target ≡ flags_of target path)
unfolding openssl_flags flags_of as_bytes
openssl_flags-Finds env target = elim (Option-cases (env (str "DEP_OPENSSL_INCLUDE"))) [
  | inl e ↦ (
    none,
    (λ (path, is). let (rest, f, _, _, _, _) = is in cc (e, f)),
    rw (openssl_flags, e) refl,
  )
  | inr (paths, e) ↦ elim (Option-cases (from_utf8 (first_path paths))) [
    | inl f ↦ (
      none,
      (λ (path, is). cc (f, (IsTlsPath-first_path env paths path e is).0)),
      rw (openssl_flags, e, f) refl,
    )
    | inr ([], f) ↦ (
      none,
      (λ (path, is).
          let (g, nonempty) = IsTlsPath-first_path env paths path e is in
          let same : path ≡ [] = cc (f, g) in nonempty same),
      rw (openssl_flags, e, f) refl,
    )
    | inr (c ∷ s, f) ↦
        let (free, (rest, ends, split)) = first_path-HasNoColon paths in
        let (same, scalars) = from_utf8-some (first_path paths) (c ∷ s) f in
        (
          some (c ∷ s),
          (rest, e ∙ ap some (rw⁻¹ same split), rw⁻¹ same free, ends, scalars, cc),
          rw (openssl_flags, e, f, length-as_bytes c s) refl,
        )
  ]
]

build-tables :
    (env : Env) (target : Str) (path : Option Str)
    → openssl_flags env target ≡ flags_of target path
    → (linked (build env target) ≡ libraries (contains (str "windows") target) path)
      × (defined (build env target) ≡ macros (contains (str "windows") target) path)
      × (included (build env target) ≡ directories (contains (str "windows") target) path)
      × (compiled (build env target) ≡ sources)
unfolding build platform_flags tls_flags flags_of linked links strip_prefix defined included
    compiled libraries macros directories
build-tables env target none e = elim (Bool-cases (contains (str "windows") target)) [
  | inl h ↦ rw (build, e, platform_flags, h) (refl, refl, refl, refl)
  | inr h ↦ rw (build, e, platform_flags, h) (refl, refl, refl, refl)
]
build-tables env target (some p) e = elim (Bool-cases (contains (str "windows") target)) [
  | inl h ↦ rw (build, e, platform_flags, tls_flags, h) (refl, refl, refl, refl)
  | inr h ↦ rw (build, e, platform_flags, tls_flags, h) (refl, refl, refl, refl)
]

-- Without a target the script panics. With one it links the libraries, defines the macros and uses
-- the directories of the two tables, for a target that contains `windows` or not, and for the first
-- path of `DEP_OPENSSL_INCLUDE` if that is a text and not empty; and it compiles the same sources
-- always.
pub main_cases :
    (env : Env)
    → ((var env (str "TARGET") ≡ none) × (main env ≡ none))
      ⊎ ((target : Str) × (acts : List Action) × (windows : Bool) × (path : Option Str) × (var env
              (str "TARGET")
            ≡ some target)
          × (main env ≡ some acts)
          × ((windows ≡ true) ↔ Contains (str "windows") target)
          × Finds env path
          × (linked acts ≡ libraries windows path)
          × (defined acts ≡ macros windows path)
          × (included acts ≡ directories windows path)
          × (compiled acts ≡ sources))
unfolding main
main_cases env = elim (Option-cases (var env (str "TARGET"))) [
  | inl e ↦ inl (e, rw (main, e) refl)
  | inr (target, e) ↦
      let (path, finds, flags) = openssl_flags-Finds env target in
      let (link, macro, dir, file) = build-tables env target path flags in
      inr (
        target,
        build env target,
        contains (str "windows") target,
        path,
        e,
        rw (main, e) refl,
        contains_iff (str "windows") target,
        finds,
        link,
        macro,
        dir,
        file,
      )
]
