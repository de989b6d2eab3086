-- ===== src/Lowlevel/Init.antt =====
-- How often mosquitto-rs/src/lowlevel.rs initialises libmosquitto.
use mosquitto_rs.Base.{
  ℕ, suc, ◌+◌, ◌≡◌, refl, ◌∙◌, Bool, true, false, ◌||◌, Option, none, some, List, [], ◌∷◌, Str,
  if◌then◌else◌, arith, Bool-cases, Result-cases, inl, inr,
}
use mosquitto_rs.Lowlevel.Io.{Process}
use mosquitto_rs.Lowlevel.Mosq.{
  Mosq, init_library, lib_version, set_callbacks, from_new, with_auto_id, with_id, drop,
}
use mosquitto_rs.Lowlevel.Strings.{cstr}
use mosquitto_rs.Sys.Library.{Library, CString, Trampoline, callback_set, each_set, all_kinds}

-- `inits` counts the calls of `mosquitto_lib_init`: that function adds one, and the others that a
-- client's construction and end call leave it.
pub record Counted {CB : Type 0} (lib : Library CB) : Type 0 where
  pub inits : lib.World → ℕ
  pub lib_init : (w : lib.World) → inits (lib.mosquitto_lib_init w) ≡ suc (inits w)
  pub new :
      (id : Option CString) (clean : Bool) (obj : CB) (w : lib.World)
      → inits (lib.mosquitto_new id clean obj w).1 ≡ inits w
  pub callback_sets :
      (kind : Trampoline) (m : lib.Handle) (t : Option Trampoline) (w : lib.World)
      → inits (callback_set lib kind m t w) ≡ inits w
  pub destroy : (m : lib.Handle) (w : lib.World) → inits (lib.mosquitto_destroy m w) ≡ inits w

module _ {CB : Type 0} (lib : Library CB) where
  -- A use of the library that makes or ends a client, or asks for the version.
  pub data Use : Type 0 where
    asks_version : Use
    makes_auto : CB → Use
    makes : CB → Str → Bool → Use
    drops : Mosq lib → Use

  unfoldable pub use_library : Use → Process lib.World → Process lib.World
  use_library asks_version s = (lib_version lib s).1
  use_library (makes_auto cb) s = (with_auto_id lib cb s).1
  use_library (makes cb id clean_session) s = (with_id lib cb id clean_session s).1
  use_library (drops mosq) s = drop lib mosq s

  unfoldable pub use_all : List Use → Process lib.World → Process lib.World
  use_all [] s = s
  use_all (u ∷ us) s = use_all us (use_library u s)

  -- Whether the library is needed.
  unfoldable pub needs : Use → Bool
  needs asks_version = true
  needs (makes_auto cb) = true
  needs (makes cb id clean_session) = true
  needs (drops mosq) = false

  unfoldable pub any_needs : List Use → Bool
  any_needs [] = false
  any_needs (u ∷ us) = needs u || any_needs us

module _ {CB : Type 0} (lib : Library CB) (c : Counted lib) where
  each_set-inits :
      (m : lib.Handle) (ts : List Trampoline) (w : lib.World)
      → c.inits (each_set lib m ts w) ≡ c.inits w
  each_set-inits m [] w = refl
  each_set-inits m (t ∷ ts) w =
      each_set-inits m ts (callback_set lib t m (some t) w) ∙ c.callback_sets t m (some t) w

  -- Only the C library's state changes, and not its count.
  from_new-inits :
      (cb : CB) (r : Option lib.Handle × lib.World) (s : Process lib.World)
      → (c.inits (from_new lib cb r s).1.world ≡ c.inits r.1)
        × ((from_new lib cb r s).1.initialised ≡ s.initialised)
  unfolding from_new set_callbacks
  from_new-inits cb (none, w) s = (refl, refl)
  from_new-inits cb (some m, w) s = (each_set-inits m all_kinds w, refl)

  -- What `init_library` adds.
  abbrev due : Bool → Process lib.World → ℕ
  due needed s = if s.initialised then 0 else if needed then 1 else 0

  -- The library is initialised if it was or is needed now, and only then.
  abbrev pub Keeps : Bool → Process lib.World → Process lib.World → Type 0
  Keeps needed s t =
      (t.initialised ≡ (s.initialised || needed))
      × (c.inits t.world ≡ c.inits s.world + due needed s)

  init_library-Keeps : (s : Process lib.World) → Keeps true s (init_library lib s)
  unfolding init_library
  init_library-Keeps s = elim (Bool-cases s.initialised) [
    | inl e ↦ rw (init_library, e) (refl, omega arith)
    | inr e ↦ rw (init_library, e) (refl, omega (arith, c.lib_init s.world))
  ]

  from_new-Keeps :
      (cb : CB) (id : Option CString) (clean : Bool) (s : Process lib.World)
      → Keeps true s
          (from_new lib cb
            (lib.mosquitto_new id clean cb (init_library lib s).world)
            (init_library lib s)).1
  from_new-Keeps cb id clean s =
      let t = init_library lib s in
      let (begun, counted) = init_library-Keeps s in
      let (same, still) = from_new-inits cb (lib.mosquitto_new id clean cb t.world) t in
      (still ∙ begun, same ∙ c.new id clean cb t.world ∙ counted)

  use_library-Keeps :
      (u : Use lib) (s : Process lib.World) → Keeps (needs lib u) s (use_library lib u s)
  unfolding use_library needs lib_version with_auto_id with_id drop
  use_library-Keeps asks_version s = init_library-Keeps s
  use_library-Keeps (makes_auto cb) s = from_new-Keeps cb none true s
  use_library-Keeps (makes cb id clean_session) s = elim (Result-cases (cstr id)) [
    | inl (k, e) ↦ rw (use_library, with_id, e) (from_new-Keeps cb (some k) clean_session s)
    | inr (x, e) ↦ rw (use_library, with_id, e) (init_library-Keeps s)
  ]
  use_library-Keeps (drops mosq) s = elim (Bool-cases s.initialised) [
    | inl e ↦ rw (use_library, drop, e) (refl, omega (arith, c.destroy mosq.m s.world))
    | inr e ↦ rw (use_library, drop, e) (refl, omega (arith, c.destroy mosq.m s.world))
  ]

  -- Whatever clients are made and ended, and whatever versions are asked for, in whatever order,
  -- `mosquitto_lib_init` is called once if the library is needed and was not yet initialised, and
  -- not at all otherwise; and the process then knows that it has been.
  pub use_all-Keeps :
      (us : List (Use lib)) (s : Process lib.World) → Keeps (any_needs lib us) s (use_all lib us s)
  unfolding use_all any_needs
  use_all-Keeps [] s = elim (Bool-cases s.initialised) [
    | inl e ↦ rw e (refl, omega arith)
    | inr e ↦ rw e (refl, omega arith)
  ]
  use_all-Keeps (u ∷ us) s =
      let (first, one) = use_library-Keeps u s in
      let (rest, more) = use_all-Keeps us (use_library lib u s) in
      ground (arith, first, one, rest, more)
