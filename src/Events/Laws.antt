-- ===== src/Events/Laws.antt =====
-- No listener stands in the way of another.
use whats_multi.Errors.{Thrown}
use whats_multi.Events.{
  Wrapper, Payload, Trace, called, processed, logged, Outcome, returns, throws, rejects, Bus,
  cached, off, remove_last, is_for, listeners, error_event, error_payload, trace, guard_error,
  enter, run_errors, report, guard, run, run_batch, emit,
}
use whats_multi.Prelude.{
  ℕ, ◌≡◌, refl, ap, ◌∙◌, inl, inr, Bool, true, false, not, Option, none, some, List, [], ◌∷◌, arith,
  if◌then◌else◌, Bool-cases, keep, All, Text, codes, text_eq, text_eq_iff,
}

-- The listeners that were called for an event, the latest first.
abbrev pub heard : Text → List Trace → List ℕ
heard event [] = []
heard event (called l e ∷ ts) =
    let rest = heard event ts in if text_eq e event then l ∷ rest else rest
heard event (t ∷ ts) = heard event ts

abbrev pub onto : List Wrapper → List ℕ → List ℕ
onto [] acc = acc
onto (w ∷ ws) acc = onto ws (w.listener ∷ acc)

abbrev pub Of : Text → List Wrapper → Type 0
Of event ws = All (λ (w : Wrapper). text_eq w.event event ≡ true) ws

listeners-Of : (event : Text) (ws : List Wrapper) → Of event (keep (λ w. text_eq w.event event) ws)
listeners-Of event [] = tt
listeners-Of event (w ∷ ws) = elim (Bool-cases (text_eq w.event event)) [
  | inl e ↦ rw e (e, listeners-Of event ws)
  | inr e ↦ rw e (listeners-Of event ws)
]

off-traces : (event : Text) (l : ℕ) (b : Bus) → (off event l b).traces ≡ b.traces
unfolding off
off-traces event l b = of_cached (cached event l b.wrappers)
  where
    of_cached :
        (o : Option Wrapper)
        → (elim o as (λ _. Bus) [
          | none ↦ b
          | some w ↦ record b {
            attached = remove_last w b.attached;
            wrappers = keep (λ v. not (is_for event l v)) b.wrappers;
          }
        ]).traces
          ≡ b.traces
    of_cached none = refl
    of_cached (some w) = refl

enter-traces : (w : Wrapper) (b : Bus) → (enter w b).traces ≡ called w.listener w.event ∷ b.traces
unfolding enter trace
enter-traces w b = of_once w.once
  where
    of_once :
        (o : Bool)
        → called w.listener w.event ∷ (if o then off w.event w.listener b else b).traces
          ≡ called w.listener w.event ∷ b.traces
    of_once true = ap (λ ts. called w.listener w.event ∷ ts) (off-traces w.event w.listener b)
    of_once false = refl

guard_error-heard :
    (event : Text) (o : Outcome) (b : Bus)
    → heard event (guard_error o b).traces ≡ heard event b.traces
unfolding guard_error trace
guard_error-heard event returns b = refl
guard_error-heard event (throws e) b = refl
guard_error-heard event (rejects e) b = refl

module _ (behave : ℕ → Text → Payload → Outcome) (behave_batch : ℕ → Outcome) (event : Text) where
  run_errors-heard :
      (ws : List Wrapper) (p : Payload) (b : Bus)
      → text_eq error_event event ≡ false
      → Of error_event ws
      → heard event (run_errors behave behave_batch ws p b).traces ≡ heard event b.traces
  unfolding run_errors
  run_errors-heard [] p b ne of = refl
  run_errors-heard (w ∷ ws) p b ne (e, of) =
      let o = behave w.listener error_event p in
      run_errors-heard ws p (guard_error o (enter w b)) ne of
      ∙ guard_error-heard event o (enter w b)
      ∙ ap (heard event) (enter-traces w b)
      ∙ ground (arith, text_eq_iff w.event error_event, text_eq_iff w.event event)

  report-heard :
      (e : Thrown) (source : Text) (b : Bus)
      → text_eq error_event event ≡ false
      → heard event (report behave behave_batch e source b).traces ≡ heard event b.traces
  unfolding report trace listeners
  report-heard e source b ne = elim (Bool-cases (text_eq source error_event)) [
    | inl here ↦ rw here refl
    | inr there ↦
        let l = trace (logged source) b in
        rw there (
          run_errors-heard (listeners error_event l) (error_payload e) l ne
            (listeners-Of error_event b.attached))
  ]

  guard-heard :
      (o : Outcome) (source : Text) (b : Bus)
      → text_eq error_event event ≡ false
      → heard event (guard behave behave_batch o source b).traces ≡ heard event b.traces
  unfolding guard
  guard-heard returns source b ne = refl
  guard-heard (throws e) source b ne = report-heard e source b ne
  guard-heard (rejects e) source b ne = refl

  run-heard :
      (p : Payload) (ws : List Wrapper) (b : Bus)
      → text_eq error_event event ≡ false
      → Of event ws
      → heard event (run behave behave_batch event p ws b).traces ≡ onto ws (heard event b.traces)
  unfolding run
  run-heard p [] b ne of = refl
  run-heard p (w ∷ ws) b ne (e, of) =
      let o = behave w.listener event p in
      run-heard p ws (guard behave behave_batch o event (enter w b)) ne of
      ∙ ap (onto ws)
          (guard-heard o event (enter w b) ne ∙ ap (heard event) (enter-traces w b) ∙ rw e refl)

  run_batch-heard :
      (ns : List ℕ) (b : Bus)
      → text_eq error_event event ≡ false
      → heard event (run_batch behave behave_batch ns b).traces ≡ heard event b.traces
  unfolding run_batch trace
  run_batch-heard [] b ne = refl
  run_batch-heard (n ∷ ns) b ne =
      let t = trace (processed n) b in
      run_batch-heard ns (guard behave behave_batch (behave_batch n) (codes "process") t) ne
      ∙ guard-heard (behave_batch n) (codes "process") t ne

  -- An emit of any event but `session.error`, under which the bus reports failures of its own, calls
  -- every listener that was attached to the event when it began, once for each time that
  -- it was attached and in that order, whatever the listeners before it threw or rejected.
  pub emit-heard :
      (p : Payload) (b : Bus)
      → text_eq error_event event ≡ false
      → heard event (emit behave behave_batch event p b).traces
        ≡ onto (listeners event b) (heard event b.traces)
  unfolding emit listeners
  emit-heard p b ne =
      let l = run behave behave_batch event p (listeners event b) b in
      run_batch-heard l.batch_listeners l ne
      ∙ run-heard p (listeners event b) b ne (listeners-Of event b.attached)
