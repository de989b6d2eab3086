-- ===== src/Lowlevel/Io.antt =====
-- mosquitto-rs/src/lowlevel.rs: how its methods run. A method takes the state of the process and
-- returns its result with the new state.
use mosquitto_rs.Base.{Bool, Option, none, some, Result, ok, err}
use mosquitto_rs.Base.Int.{ℤ}
use mosquitto_rs.Error.{Error, mosq, result}
use mosquitto_rs.Lowlevel.Status.{MessageId}
use mosquitto_rs.Sys.{MosqErr}
use mosquitto_rs.Sys.Library.{Library}

-- The C library's state, and whether the static `INIT` has run.
pub record Process (World : Type 0) : Type 0 where
  pub initialised : Bool
  pub world : World

-- A method's effect: `?` stops it at an error, and what was done stays done.
abbrev pub Io : Type 0 → Type 0 → Type 0
Io S A = S → Result A Error × S

abbrev pub and_then : {S A B : Type 0} → Result A Error → (A → Io S B) → Io S B
and_then (ok a) f s = f a s
and_then (err e) f s = (err e, s)

infixl 5 ◌>>=◌
abbrev pub ◌>>=◌ : {S A B : Type 0} → Io S A → (A → Io S B) → Io S B
◌>>=◌ m f s = let (r, s') = m s in and_then r f s'

-- A result computed with no effect.
abbrev pub lift : {S A : Type 0} → Result A Error → Io S A
lift r s = (r, s)

-- `try_into().map_err(|_| Error::Mosq(code))`.
abbrev pub or_mosq : {S A : Type 0} → MosqErr → Option A → Io S A
or_mosq code (some a) s = (ok a, s)
or_mosq code none s = (err (mosq code), s)

module _ {CB : Type 0} (lib : Library CB) where
  -- A call into C whose result becomes `Result<(), Error>`.
  abbrev pub check : (lib.World → ℤ × lib.World) → Io (Process lib.World) (Unit {0})
  check call s = let (rc, w) = call s.world in (result lib rc tt w, record s { world = w })

  -- A call into C that also writes a message id.
  abbrev pub check_mid : (lib.World → ℤ × ℤ × lib.World) → Io (Process lib.World) MessageId
  check_mid call s =
      let (rc, mid, w) = call s.world in (result lib rc mid w, record s { world = w })
