-- ===== src/Events/Tests.antt =====
-- A bus with two listeners of `qr`, the first of which throws.
use whats_multi.Errors.{foreign}
use whats_multi.Events.{
  Payload, plain, called, logged, Outcome, returns, throws, Bus, new_bus, cached, register, on,
  once, listeners, emit,
}
use whats_multi.Events.Laws.{heard, onto, emit-heard}
use whats_multi.Events.Twice.{Stuck, registered_twice_sticks}
use whats_multi.Prelude.{ℕ, ◌≡◌, refl, true, false, none, [], ◌∷◌, ◌==◌, if◌then◌else◌, Text, codes}

abbrev qr : Text
qr = codes "qr"

abbrev behave : ℕ → Text → Payload → Outcome
behave n event p = if n == 1 then throws (foreign (codes "oops")) else returns

abbrev behave_batch : ℕ → Outcome
behave_batch n = returns

abbrev bus : Bus
bus = on qr 2 (on qr 1 new_bus)

after_emit :
    (emit behave behave_batch qr (plain 0) bus).traces ≡ called 2 qr ∷ logged qr ∷ called 1 qr ∷ []
unfolding emit on new_bus
after_emit = refl

-- A single `once` fires once.
fires_once :
    (emit behave behave_batch qr
      (plain 0)
      (emit behave behave_batch qr (plain 0) (once qr 2 new_bus))).traces
    ≡ called 2 qr ∷ []
unfolding emit once new_bus
fires_once = refl

-- Two of them for one listener: it is called twice by the first emit, and by each later one again.
fires_again :
    (emit behave behave_batch qr
      (plain 0)
      (emit behave behave_batch qr (plain 0) (once qr 2 (once qr 2 new_bus)))).traces
    ≡ called 2 qr ∷ called 2 qr ∷ called 2 qr ∷ []
unfolding emit once new_bus
fires_again = refl

emit-heard_example :
    heard qr (emit behave behave_batch qr (plain 0) bus).traces
    ≡ onto (listeners qr bus) (heard qr bus.traces)
emit-heard_example = emit-heard behave behave_batch qr (plain 0) bus refl

free : cached qr 2 new_bus.wrappers ≡ none
unfolding cached new_bus
free = refl

registered_twice_sticks_example : Stuck qr 2 (register true qr 2 (register false qr 2 new_bus))
registered_twice_sticks_example =
    registered_twice_sticks false true qr 2 new_bus free (unfold new_bus in refl)
