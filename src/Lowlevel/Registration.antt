-- ===== src/Lowlevel/Registration.antt =====
-- mosquitto-rs/src/lowlevel.rs: the functions that `set_callbacks` registers for a new handle.
use mathlib.Core.List.{Memᴰ}
use mathlib.Core.List.Memᴰ
use mosquitto_rs.Base.{
  Bool, true, ℕ, ◌==◌, ==_iff, ==_refl, ◌≡◌, refl, sym, ap, ◌∙◌, ◌⊎◌, inl, inr, if◌then◌else◌,
  Bool-cases, Option, none, some, List, [], ◌∷◌, Str, ok, Result-cases,
}
use mosquitto_rs.Lowlevel.Io.{Process}
use mosquitto_rs.Lowlevel.Mosq.{Mosq, init_library, from_new, set_callbacks, with_id, with_auto_id}
use mosquitto_rs.Lowlevel.Strings.{cstr}
use mosquitto_rs.Sys.Library.{
  Library, Trampoline, connect, disconnect, publish, subscribe, message, unsubscribe, bridge_logs,
  callback_set, each_set, all_kinds,
}

-- The kinds told apart by a number.
abbrev pub kind_code : Trampoline → ℕ
kind_code connect = 0
kind_code disconnect = 1
kind_code publish = 2
kind_code subscribe = 3
kind_code message = 4
kind_code unsubscribe = 5
kind_code bridge_logs = 6

-- What the C library keeps for a handle: for each kind of callback the function that was set last
-- by the setter of that kind. Setting one, starting the loop's thread and asking to disconnect
-- leave the others.
pub record Registry {Obj : Type 0} (lib : Library Obj) : Type 0 where
  pub registered : lib.World → lib.Handle → Trampoline → Option Trampoline
  pub set_one :
      (m : lib.Handle) (kind other : Trampoline) (t : Option Trampoline) (w : lib.World)
      → registered (callback_set lib kind m t w) m other
        ≡ (if kind_code other == kind_code kind then t else registered w m other)
  pub loop_start_keeps :
      (m : lib.Handle) (kind : Trampoline) (w : lib.World)
      → registered (lib.mosquitto_loop_start m w).1 m kind ≡ registered w m kind
  pub disconnect_keeps :
      (m : lib.Handle) (kind : Trampoline) (w : lib.World)
      → registered (lib.mosquitto_disconnect m w).1 m kind ≡ registered w m kind

abbrev of_code : ℕ → Trampoline
of_code n =
    if n == 0
    then connect
    else if n == 1
    then disconnect
    else if n == 2
    then publish
    else if n == 3
    then subscribe
    else if n == 4
    then message
    else if n == 5
    then unsubscribe
    else bridge_logs

of_code-kind_code : (t : Trampoline) → of_code (kind_code t) ≡ t
of_code-kind_code connect = refl
of_code-kind_code disconnect = refl
of_code-kind_code publish = refl
of_code-kind_code subscribe = refl
of_code-kind_code message = refl
of_code-kind_code unsubscribe = refl
of_code-kind_code bridge_logs = refl

kind_code-inj : (t u : Trampoline) → kind_code t ≡ kind_code u → t ≡ u
kind_code-inj t u e = sym (of_code-kind_code t) ∙ ap of_code e ∙ of_code-kind_code u

module _ {Obj : Type 0} (lib : Library Obj) (registry : Registry lib) (m : lib.Handle) where
  -- The function of a kind is set for it, and is kept while others are set each for its own.
  set_own :
      (t u : Trampoline) (w : lib.World)
      → ((t ≡ u) ⊎ (registry.registered w m u ≡ some u))
      → registry.registered (callback_set lib t m (some t) w) m u ≡ some u
  set_own t u w h = elim (Bool-cases (kind_code u == kind_code t)) [
    | inl e ↦
        let same : u ≡ t = kind_code-inj u t ((==_iff _ _).0 e) in
        registry.set_one m t u (some t) w ∙ rw (e, same) refl
    | inr e ↦ elim h [
      | inl same ↦
          let found : (kind_code u == kind_code t) ≡ true = rw same (==_refl (kind_code u)) in
          cc (e, found)
      | inr kept ↦ registry.set_one m t u (some t) w ∙ rw e kept
    ]
  ]

  each_set-keeps :
      (ts : List Trampoline) (u : Trampoline) (w : lib.World)
      → registry.registered w m u ≡ some u
      → registry.registered (each_set lib m ts w) m u ≡ some u
  each_set-keeps [] u w h = h
  each_set-keeps (t ∷ ts) u w h =
      each_set-keeps ts u (callback_set lib t m (some t) w) (set_own t u w (inr h))

  each_set-Mem :
      (ts : List Trampoline) (u : Trampoline) (w : lib.World)
      → Memᴰ u ts
      → registry.registered (each_set lib m ts w) m u ≡ some u
  each_set-Mem [] u w here = absurd (Memᴰ.not-nil here)
  each_set-Mem (t ∷ ts) u w here = elim (Memᴰ.cases_cons here) [
    | inl e ↦ each_set-keeps ts u (callback_set lib t m (some t) w) (set_own t u w (inl (sym e)))
    | inr there ↦ each_set-Mem ts u (callback_set lib t m (some t) w) there
  ]

  -- Each kind has its own function.
  abbrev pub Complete : lib.World → Type 0
  Complete w = (t : Trampoline) → registry.registered w m t ≡ some t

  Memᴰ-all_kinds : (t : Trampoline) → Memᴰ t all_kinds
  Memᴰ-all_kinds connect = Memᴰ.head refl
  Memᴰ-all_kinds disconnect = Memᴰ.tail (Memᴰ.head refl)
  Memᴰ-all_kinds publish = Memᴰ.tail (Memᴰ.tail (Memᴰ.head refl))
  Memᴰ-all_kinds subscribe = Memᴰ.tail (Memᴰ.tail (Memᴰ.tail (Memᴰ.head refl)))
  Memᴰ-all_kinds message = Memᴰ.tail (Memᴰ.tail (Memᴰ.tail (Memᴰ.tail (Memᴰ.head refl))))
  Memᴰ-all_kinds unsubscribe =
      Memᴰ.tail (Memᴰ.tail (Memᴰ.tail (Memᴰ.tail (Memᴰ.tail (Memᴰ.head refl)))))
  Memᴰ-all_kinds bridge_logs =
      Memᴰ.tail (Memᴰ.tail (Memᴰ.tail (Memᴰ.tail (Memᴰ.tail (Memᴰ.tail (Memᴰ.head refl))))))

  each_set-Complete : (w : lib.World) → Complete (each_set lib m all_kinds w)
  each_set-Complete w t = each_set-Mem all_kinds t w (Memᴰ-all_kinds t)

module _ {Obj : Type 0} (lib : Library Obj) (registry : Registry lib) where
  from_new-Complete :
      (cb : Obj) (made : Option lib.Handle × lib.World) (s : Process lib.World) (client : Mosq lib)
      → (from_new lib cb made s).0 ≡ ok client
      → Complete lib registry client.m (from_new lib cb made s).1.world
  unfolding from_new set_callbacks
  from_new-Complete cb (none, w) s client e = cc e
  from_new-Complete cb (some m, w) s client e =
      let same : m ≡ client.m = cc e in rw (← same) (each_set-Complete lib registry m w)

  pub with_id-Complete :
      (cb : Obj) (id : Str) (clean : Bool) (s : Process lib.World) (client : Mosq lib)
      → (with_id lib cb id clean s).0 ≡ ok client
      → Complete lib registry client.m (with_id lib cb id clean s).1.world
  unfolding with_id
  with_id-Complete cb id clean s client e = elim (Result-cases (cstr id)) [
    | inl (c, h) ↦
        let s' = init_library lib s in
        let made = lib.mosquitto_new (some c) clean cb s'.world in
        rw (h, with_id) (from_new-Complete cb made s' client (rw (h, with_id) at e))
    | inr (x, h) ↦ cc (rw (h, with_id) at e)
  ]

  pub with_auto_id-Complete :
      (cb : Obj) (s : Process lib.World) (client : Mosq lib)
      → (with_auto_id lib cb s).0 ≡ ok client
      → Complete lib registry client.m (with_auto_id lib cb s).1.world
  unfolding with_auto_id
  with_auto_id-Complete cb s client e =
      let s' = init_library lib s in
      from_new-Complete cb (lib.mosquitto_new none true cb s'.world) s' client e
