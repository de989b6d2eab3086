-- ===== src/Lowlevel/Calls.antt =====
-- mosquitto-rs/src/lowlevel.rs: which arguments its methods hand to C, and which they refuse.
use mosquitto_rs.Base.{
  ℕ, suc, ◌+◌, ◌<◌, ◌≤◌, ◌==◌, ==_iff, ◌≡◌, refl, ap, ◌∙◌, ◌≢◌, ◌⊎◌, inl, inr, Bool, Option, none,
  some, [], ◌∷◌, ◌++◌, All, length, Str, Bytes, ok, err, arith, Bool-cases,
}
use mosquitto_rs.Base.Int.{ℤ, pos, to_c_int}
use mosquitto_rs.Base.Utf8.{as_bytes}
use mosquitto_rs.Error.{Error, mosq, c_string}
use mosquitto_rs.Lowlevel.Io.{Process, check, check_mid}
use mosquitto_rs.Lowlevel.Mosq.{Mosq}
use mosquitto_rs.Lowlevel.Network.{publish, connect}
use mosquitto_rs.Lowlevel.Status.{QoS, qos_code}
use mosquitto_rs.Lowlevel.Strings.{nul_position, c_string_new, cstr, opt_cstr, Duration}
use mosquitto_rs.Sys.{MosqErr}
use mosquitto_rs.Sys.Library.{Library, CString}

abbrev pub HasNoNul : Bytes → Type 0
HasNoNul bs = All (λ b. b ≢ 0) bs

-- The first NUL stands at `i`.
abbrev pub FirstNul : Bytes → ℕ → Type 0
FirstNul bs i =
    (before : Bytes) × (after : Bytes) × (bs ≡ before ++ 0 ∷ after)
    × HasNoNul before
    × (i ≡ length before)

pub nul_position_cases :
    (n : ℕ) (bs : Bytes)
    → (HasNoNul bs × (nul_position n bs ≡ none))
      ⊎ ((i : ℕ) × FirstNul bs i × (nul_position n bs ≡ some (n + i)))
unfolding nul_position
nul_position_cases n [] = inl (tt, refl)
nul_position_cases n (b ∷ bs) = elim (Bool-cases (b == 0)) [
  | inl e ↦
      let nul : b ≡ 0 = (==_iff b 0).0 e in
      inr (0, ([], bs, ap (λ x. x ∷ bs) nul, tt, refl), rw e (ap some (omega arith)))
  | inr e ↦
      let other : b ≢ 0 = ground (arith, e) in
      elim (nul_position_cases (n + 1) bs) [
        | inl (h, same) ↦ inl ((other, h), rw (e, same) refl)
        | inr (i, (before, after, split, h, at), same) ↦ inr (
          suc i,
          (b ∷ before, after, ap (◌∷◌ b) split, (other, h), ap suc at),
          rw (e, same) (ap some (omega arith)),
        )
      ]
]

around_nul : (before after : Bytes) → HasNoNul (before ++ 0 ∷ after) → ⊥
around_nul [] after (h, hs) = h refl
around_nul (b ∷ before) after (h, hs) = around_nul before after hs

FirstNul-some : (bs : Bytes) (i : ℕ) → FirstNul bs i → HasNoNul bs → ⊥
FirstNul-some bs i (before, after, e, _, _) h = around_nul before after (rw e at h)

-- A text is handed to C if it holds no NUL, and refused with the place of its first one otherwise.
pub cstr_cases :
    (s : Str)
    → (HasNoNul (as_bytes s) × (cstr s ≡ ok (record { bytes = as_bytes s })))
      ⊎ ((i : ℕ) × FirstNul (as_bytes s) i
          × (cstr s ≡ err (c_string (record { position = i; bytes = as_bytes s }))))
unfolding cstr c_string_new
cstr_cases s = elim (nul_position_cases 0 (as_bytes s)) [
  | inl (h, e) ↦ inl (h, rw (e, cstr, c_string_new) refl)
  | inr (i, first, e) ↦
      let found : nul_position 0 (as_bytes s) ≡ some i =
        e ∙ ap some {x = 0 + i} {y = i} (omega arith) in
      inr (i, first, rw (found, cstr, c_string_new) refl)
]

to_c_int_cases :
    (n : ℕ)
    → ((n < 2147483648) × (to_c_int n ≡ some (pos n))) ⊎ ((2147483648 ≤ n) × (to_c_int n ≡ none))
unfolding to_c_int
to_c_int_cases n = ground arith

module _ {CB : Type 0} (lib : Library CB) (self : Mosq lib) where
  -- `publish` does one of three things. If the topic holds a NUL, it fails with the place of the
  -- first one; else, if the payload is of 2^31 bytes or more, it fails with
  -- `MOSQ_ERR_PAYLOAD_SIZE`; in both cases nothing has changed. Else it makes one call of
  -- `mosquitto_publish`, with the bytes of the topic, the payload and its length, and the code of the
  -- quality of service, and its result and its id are what that call gives.
  pub publish_cases :
      (topic : Str) (payload : Bytes) (qos : QoS) (retain : Bool) (s : Process lib.World)
      → ((i : ℕ) × FirstNul (as_bytes topic) i
          × (publish lib self topic payload qos retain s
              ≡ (err (c_string (record { position = i; bytes = as_bytes topic })), s)))
        ⊎ (HasNoNul (as_bytes topic)
            × (2147483648 ≤ length payload)
            × (publish lib self topic payload qos retain s ≡ (err (mosq MosqErr.payload_size), s)))
        ⊎ (HasNoNul (as_bytes topic)
            × (length payload < 2147483648)
            × (publish lib self topic payload qos retain s
                ≡ check_mid lib
                    (lib.mosquitto_publish self.m
                      (pos 0)
                      (record { bytes = as_bytes topic })
                      (pos (length payload))
                      payload
                      (qos_code qos)
                      retain)
                    s))
  unfolding publish
  publish_cases topic payload qos retain s = elim (cstr_cases topic) [
    | inr (i, first, e) ↦ inl (i, first, rw (e, publish) refl)
    | inl (h, e) ↦ elim (to_c_int_cases (length payload)) [
      | inr (large, f) ↦ inr (inl (h, large, rw (e, f, publish) refl))
      | inl (small, f) ↦ inr (inr (h, small, rw (e, f, publish) refl))
    ]
  ]

  abbrev pub HasNoNulIn : Option Str → Type 0
  HasNoNulIn none = Unit
  HasNoNulIn (some s) = HasNoNul (as_bytes s)

  abbrev pub c_bytes : Option Str → Option CString
  c_bytes none = none
  c_bytes (some s) = some (record { bytes = as_bytes s })

  opt_cstr_cases :
      (o : Option Str)
      → (HasNoNulIn o × (opt_cstr o ≡ ok (c_bytes o)))
        ⊎ ((HasNoNulIn o → ⊥) × (e : Error) × (opt_cstr o ≡ err e))
  unfolding opt_cstr
  opt_cstr_cases none = inl (tt, refl)
  opt_cstr_cases (some s) = elim (cstr_cases s) [
    | inl (h, e) ↦ inl (h, rw (e, opt_cstr) refl)
    | inr (i, first, e) ↦ inr (
      FirstNul-some (as_bytes s) i first,
      c_string (record { position = i; bytes = as_bytes s }),
      rw (e, opt_cstr) refl,
    )
  ]

  -- `connect` calls `mosquitto_connect_bind` once, with the bytes of the host and of the bind address
  -- and the seconds of the interval, and returns what that call gives, if neither text holds a NUL
  -- and the seconds are below 2^31. Otherwise it fails and nothing has changed.
  pub connect_cases :
      (host : Str) (port : ℤ) (keep_alive : Duration) (bind : Option Str) (s : Process lib.World)
      → (HasNoNul (as_bytes host)
          × HasNoNulIn bind
          × (keep_alive.secs < 2147483648)
          × (connect lib self host port keep_alive bind s
              ≡ check lib
                  (lib.mosquitto_connect_bind self.m
                    (record { bytes = as_bytes host })
                    port
                    (pos keep_alive.secs)
                    (c_bytes bind))
                  s))
        ⊎ ((HasNoNul (as_bytes host) × HasNoNulIn bind × (keep_alive.secs < 2147483648) → ⊥)
            × (e : Error) × (connect lib self host port keep_alive bind s ≡ (err e, s)))
  unfolding connect
  connect_cases host port keep_alive bind s = elim (cstr_cases host) [
    | inr (i, first, e) ↦ inr (
      λ h. FirstNul-some (as_bytes host) i first h.0,
      c_string (record { position = i; bytes = as_bytes host }),
      rw (e, connect) refl,
    )
    | inl (h, e) ↦ elim (opt_cstr_cases bind) [
      | inr (n, x, f) ↦ inr (λ g. n g.1, x, rw (e, f, connect) refl)
      | inl (k, f) ↦ elim (to_c_int_cases keep_alive.secs) [
        | inr (large, g) ↦
            inr (λ v. omega (arith, v.2, large), mosq MosqErr.inval, rw (e, f, g, connect) refl)
        | inl (small, g) ↦ inl (h, k, small, rw (e, f, g, connect) refl)
      ]
    ]
  ]
