-- ===== src/Examples/Counting.antt =====
-- What the program of mosquitto-rs/examples/publish.rs counts.
use mosquitto_rs.Base.{
  ℕ, ◌+◌, ◌<◌, ◌≡◌, ap, ◌∙◌, inl, inr, List, [], ◌∷◌, arith, Bool-cases, if◌then◌else◌,
}
use mosquitto_rs.Base.Int.{pos, ◌==ℤ◌}
use mosquitto_rs.Client.Delivery.{
  LibraryCall, connect, disconnect, publish, subscribe, unsubscribe, message,
}
use mosquitto_rs.Examples.Publish.{Session, Handlers, add_one, bump, doing, handlers}
use mosquitto_rs.Lowlevel.Callbacks.{no_callbacks, with_transient_client}
use mosquitto_rs.Lowlevel.Callbacks as trampoline
use mosquitto_rs.Lowlevel.Status.{is_successful}
use mosquitto_rs.Sys.Library.{Library}

-- The calls that the program counts: accepted connections, publications and disconnections.
unfoldable pub counts : LibraryCall → ℕ
counts (connect rc) = if rc ==ℤ pos 0 then 1 else 0
counts (disconnect rc) = 1
counts (publish mid) = 1
counts (subscribe mid qos) = 0
counts (unsubscribe mid) = 0
counts (message msg) = 0

unfoldable pub number : List LibraryCall → ℕ
number [] = 0
number (c ∷ cs) = counts c + number cs

module _ (lib : Library Handlers) (m : lib.Handle) where
  -- The library's calls, one after the other.
  unfoldable pub calling : LibraryCall → Session lib.World → Session lib.World
  calling (connect rc) = trampoline.connect lib (handlers lib) m rc
  calling (disconnect rc) = trampoline.disconnect lib (handlers lib) m rc
  calling (publish mid) = trampoline.publish lib (handlers lib) m mid
  calling (unsubscribe mid) = trampoline.unsubscribe lib (handlers lib) m mid
  calling (subscribe mid qos) = trampoline.subscribe lib (handlers lib) m mid qos
  calling (message msg) = trampoline.message lib (handlers lib) m msg

  unfoldable pub calling_all : List LibraryCall → Session lib.World → Session lib.World
  calling_all [] s = s
  calling_all (c ∷ cs) s = calling_all cs (calling c s)

  add_one-pos : (k : ℕ) → k + 1 < 2147483648 → add_one (pos k) ≡ pos (k + 1)
  unfolding add_one
  add_one-pos k h = ground arith

  calling-counts :
      (c : LibraryCall) (s : Session lib.World) (k : ℕ)
      → s.data_ ≡ pos k
      → k + counts c < 2147483648
      → (calling c s).data_ ≡ pos (k + counts c)
  unfolding calling counts handlers no_callbacks bump doing is_successful with_transient_client
      trampoline.connect trampoline.disconnect trampoline.publish trampoline.subscribe
      trampoline.unsubscribe trampoline.message
  calling-counts (connect rc) s k e h = elim (Bool-cases (rc ==ℤ pos 0)) [
    | inl hit ↦
        let small : k + 1 < 2147483648 = ground (arith, h, hit) in
        rw (hit, is_successful) (ap add_one e ∙ add_one-pos k small)
    | inr other ↦ rw (other, is_successful) (e ∙ ap pos (omega arith))
  ]
  calling-counts (disconnect rc) s k e h = ap add_one e ∙ add_one-pos k h
  calling-counts (publish mid) s k e h = ap add_one e ∙ add_one-pos k h
  calling-counts (subscribe mid qos) s k e h = e ∙ ap pos (omega arith)
  calling-counts (unsubscribe mid) s k e h = e ∙ ap pos (omega arith)
  calling-counts (message msg) s k e h = e ∙ ap pos (omega arith)

  -- Below the limit of an `i32`, the program's number goes up by one for each accepted connection,
  -- publication and disconnection that the C library reports, and for no other call.
  pub calling_all-number :
      (cs : List LibraryCall) (s : Session lib.World) (k : ℕ)
      → s.data_ ≡ pos k
      → k + number cs < 2147483648
      → (calling_all cs s).data_ ≡ pos (k + number cs)
  unfolding calling_all number
  calling_all-number [] s k e h = e ∙ ap pos (omega arith)
  calling_all-number (c ∷ cs) s k e h =
      calling_all-number cs (calling c s) (k + counts c) (calling-counts c s k e (omega (arith, h)))
        (omega (arith, h))
      ∙ ap pos (omega arith)
