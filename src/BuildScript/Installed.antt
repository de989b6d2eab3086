-- ===== src/BuildScript/Installed.antt =====
-- libmosquitto-sys/build.rs when the library is not compiled from source.
use mosquitto_rs.Base.{
  ◌≡◌, refl, ◌⊎◌, inl, inr, Bool, true, false, none, some, List, [], ◌∷◌, Str, str, Bool-cases,
  Option-cases,
}
use mosquitto_rs.BuildScript.Cargo.{
  Env, var, Action, write, println, file, compile, linked, compiled, links, strip_prefix,
}
use mosquitto_rs.BuildScript.System.{join, program, main}

-- If pkg-config finds the library, the script does nothing else. If not, it links `mosquitto` and
-- compiles one file, in the output directory, to which the program has been written; or it panics,
-- if it has no output directory or the write fails.
pub system_cases :
    (found : Bool) (written : Str → Str → Bool) (env : Env)
    → ((found ≡ true) × (main found written env ≡ some []))
      ⊎ ((found ≡ false) × (var env (str "OUT_DIR") ≡ none) × (main found written env ≡ none))
      ⊎ ((dir : Str) × (found ≡ false)
          × (var env (str "OUT_DIR") ≡ some dir)
          × (written (join dir (str "m.c")) program ≡ false)
          × (main found written env ≡ none))
      ⊎ ((dir : Str) × (rest : List Action) × (found ≡ false)
          × (var env (str "OUT_DIR") ≡ some dir)
          × (written (join dir (str "m.c")) program ≡ true)
          × (main found written env ≡ some (write (join dir (str "m.c")) program ∷ rest))
          × (compiled rest ≡ join dir (str "m.c") ∷ [])
          × (linked rest ≡ str "mosquitto" ∷ []))
unfolding main linked links strip_prefix compiled
system_cases true written env = inl (refl, refl)
system_cases false written env = elim (Option-cases (var env (str "OUT_DIR"))) [
  | inl e ↦ inr (inl (refl, e, rw (main, e) refl))
  | inr (dir, e) ↦ elim (Bool-cases (written (join dir (str "m.c")) program)) [
    | inr f ↦ inr (inr (inl (dir, refl, e, f, rw (main, e, f) refl)))
    | inl f ↦ inr (
        inr (
          inr (
            dir,
            println (str "cargo:rustc-link-lib=mosquitto")
                ∷ file (join dir (str "m.c"))
                ∷ compile (str "testing")
                ∷ [],
            refl,
            e,
            f,
            rw (main, e, f) refl,
            refl,
            refl,
          )))
  ]
]
