-- ===== src/Webhook/Forwarder/Laws.antt =====
-- Every event that is collected is handed to the queue, once, in order and in batches of the right
-- size.
use mathlib.Core.List.{append_assoc, append-nil}
use whats_multi.Webhook.Delivery.{WebhookEvent}
use whats_multi.Webhook.Forwarder.{
  Forwarder, take, drop, slices, post, post_pending, flush, collected,
}
use whats_multi.Prelude.{
  ℕ, zero, suc, ◌≤◌, ◌<◌, ◌≡◌, refl, sym, ap, subst, ◌∙◌, Bool, true, false, List, [], ◌∷◌, ◌++◌,
  arith, leb, ◌==◌, if◌then◌else◌, if-true, length, is_empty, All, All-append,
}

abbrev pub flat {ℓ} : {A : Type ℓ} → List (List A) → List A
flat [] = []
flat (xs ∷ xss) = xs ++ flat xss

module _ {ℓ} {A : Type ℓ} where
  flat-append : (xss yss : List (List A)) → flat (xss ++ yss) ≡ flat xss ++ flat yss
  flat-append [] yss = refl
  flat-append (xs ∷ xss) yss =
      ap (λ t. xs ++ t) (flat-append xss yss) ∙ sym (append_assoc xs (flat xss) (flat yss))

  take-drop : (n : ℕ) (xs : List A) → take n xs ++ drop n xs ≡ xs
  take-drop zero xs = refl
  take-drop (suc n) [] = refl
  take-drop (suc n) (x ∷ xs) = ap (λ t. x ∷ t) (take-drop n xs)

  length-drop : (n : ℕ) (x : A) (xs : List A) → length (drop (suc n) (x ∷ xs)) ≤ length xs
  length-drop zero x xs = omega arith
  length-drop (suc n) x [] = omega arith
  length-drop (suc n) x (y ∷ xs) = omega (arith, length-drop n y xs)

  length-take : (n : ℕ) (xs : List A) → length (take n xs) ≤ n
  length-take zero xs = omega arith
  length-take (suc n) [] = omega arith
  length-take (suc n) (x ∷ xs) = omega (arith, length-take n xs)

  abbrev pub IsBatch : ℕ → List A → Type 0
  IsBatch n xs = (1 ≤ length xs) × (length xs ≤ n)

  flat-slices : (fuel n : ℕ) (xs : List A) → length xs ≤ fuel → flat (slices fuel (suc n) xs) ≡ xs
  unfolding slices
  flat-slices zero n [] h = refl
  flat-slices zero n (x ∷ xs) h = absurd (omega arith)
  flat-slices (suc fuel) n [] h = refl
  flat-slices (suc fuel) n (x ∷ xs) h =
      let shorter : length (drop (suc n) (x ∷ xs)) ≤ fuel = omega (arith, length-drop n x xs) in
      ap (λ t. take (suc n) (x ∷ xs) ++ t) (flat-slices fuel n (drop (suc n) (x ∷ xs)) shorter)
      ∙ take-drop (suc n) (x ∷ xs)

  slices-IsBatch : (fuel n : ℕ) (xs : List A) → All (IsBatch (suc n)) (slices fuel (suc n) xs)
  unfolding slices
  slices-IsBatch zero n xs = tt
  slices-IsBatch (suc fuel) n [] = tt
  slices-IsBatch (suc fuel) n (x ∷ xs) = (
    (omega arith, omega (arith, length-take n xs)),
    slices-IsBatch fuel n (drop (suc n) (x ∷ xs)),
  )

-- `seen` is what was collected so far.
pub record Inv (n : ℕ) (f : Forwarder) (seen : List WebhookEvent) : Type 0 where
  pub size : f.max_batch_size ≡ suc n
  pub set_up : f.ready ≡ true
  pub kept : flat f.batches ++ f.pending ≡ seen
  pub batched : All (IsBatch f.max_batch_size) f.batches
  pub short : length f.pending < f.max_batch_size
  pub unbuffered : (f.batch_window_ms == 0) ≡ true → f.pending ≡ []
  pub timed : (is_empty f.pending ≡ false) → f.timer ≡ true

-- On a forwarder with nothing pending.
post-Inv :
    (n : ℕ) (events : List WebhookEvent) (f : Forwarder)
    → f.max_batch_size ≡ suc n
    → f.ready ≡ true
    → All (IsBatch f.max_batch_size) f.batches
    → f.pending ≡ []
    → Inv n (post events f) (flat f.batches ++ events)
unfolding post
post-Inv n events f size up batched nothing =
    let cut = slices (length events) f.max_batch_size events in
    let by_size : cut ≡ slices (length events) (suc n) events =
      ap (λ k. slices (length events) k events) size in
    subst (λ g. Inv n g (flat f.batches ++ events)) (if-true f.ready _ _ up)
      (record {
        size = size;
        set_up = up;
        kept =
            ap (λ t. flat (f.batches ++ cut) ++ t) nothing
            ∙ append-nil (flat (f.batches ++ cut))
            ∙ flat-append f.batches cut
            ∙ ap (λ t. flat f.batches ++ t)
                (ap flat by_size ∙ flat-slices (length events) n events (omega arith));
        batched =
            All-append (IsBatch f.max_batch_size) f.batches cut batched
              (rw by_size (rw size (slices-IsBatch (length events) n events)));
        short = rw (nothing, size) (omega arith);
        unbuffered = λ w. nothing;
        timed = λ h. absurd (cc (rw nothing at h));
      })

post_pending-Inv :
    (n : ℕ) (p seen : List WebhookEvent) (f : Forwarder)
    → f.pending ≡ p
    → f.timer ≡ false
    → f.max_batch_size ≡ suc n
    → f.ready ≡ true
    → All (IsBatch f.max_batch_size) f.batches
    → flat f.batches ++ p ≡ seen
    → Inv n (post_pending p f) seen
post_pending-Inv n [] seen f same off size up batched kept = record {
  size = size;
  set_up = up;
  kept = ap (λ t. flat f.batches ++ t) same ∙ kept;
  batched = batched;
  short = rw (same, size) (omega arith);
  unbuffered = λ w. same;
  timed = λ h. absurd (cc (rw same at h));
}
post_pending-Inv n (e ∷ es) seen f same off size up batched kept =
    subst (Inv n (post (e ∷ es) (record f { pending = [] }))) kept
      (post-Inv n (e ∷ es) (record f { pending = [] }) size up batched refl)

flush-Inv :
    (n : ℕ) (f : Forwarder)
    → f.max_batch_size ≡ suc n
    → f.ready ≡ true
    → All (IsBatch f.max_batch_size) f.batches
    → Inv n (flush f) (flat f.batches ++ f.pending)
unfolding flush
flush-Inv n f size up batched =
    post_pending-Inv n f.pending (flat f.batches ++ f.pending) (record f { timer = false }) refl
      refl size up batched refl

module _ (n : ℕ) (f : Forwarder) (seen : List WebhookEvent) (v : Inv n f seen) where
  pub flushed : Inv n (flush f) seen
  flushed = subst (Inv n (flush f)) v.kept (flush-Inv n f v.size v.set_up v.batched)

  module _ (es : List WebhookEvent) where
    abbrev waiting : Forwarder
    waiting = record f { pending = f.pending ++ es }

    regrouped : flat f.batches ++ (f.pending ++ es) ≡ seen ++ es
    regrouped = sym (append_assoc (flat f.batches) f.pending es) ∙ ap (λ t. t ++ es) v.kept

    at_once : (f.batch_window_ms == 0) ≡ true → Inv n (post es f) (seen ++ es)
    at_once w =
        let nothing = v.unbuffered w in
        let sent : flat f.batches ≡ seen =
          sym (append-nil (flat f.batches))
          ∙ ap (λ t. flat f.batches ++ t) (sym nothing)
          ∙ v.kept in
        subst (Inv n (post es f)) (ap (λ t. t ++ es) sent)
          (post-Inv n es f v.size v.set_up v.batched nothing)

    full : Inv n (flush waiting) (seen ++ es)
    full = subst (Inv n (flush waiting)) regrouped (flush-Inv n waiting v.size v.set_up v.batched)

    windowed :
        (f.batch_window_ms == 0) ≡ false
        → leb f.max_batch_size (length waiting.pending) ≡ false
        → Inv n (record waiting { timer = true }) (seen ++ es)
    windowed w few = record {
      size = v.size;
      set_up = v.set_up;
      kept = regrouped;
      batched = v.batched;
      short = ground arith;
      unbuffered = λ zero_window. absurd (cc);
      timed = λ h. refl;
    }

pub collected-Inv :
    (n : ℕ) (es : List WebhookEvent) (f : Forwarder) (seen : List WebhookEvent)
    → Inv n f seen
    → Inv n (collected es f) (seen ++ es)
collected-Inv n [] f seen v = subst (Inv n f) (sym (append-nil seen)) v
collected-Inv n (e ∷ es) f seen v =
    choose (f.batch_window_ms == 0)
      (leb f.max_batch_size (length (waiting n f seen v (e ∷ es)).pending))
      (at_once n f seen v (e ∷ es)) (full n f seen v (e ∷ es)) (windowed n f seen v (e ∷ es))
  where
    choose :
        (a b : Bool) {x y z : Forwarder} {s : List WebhookEvent}
        → (a ≡ true → Inv n x s)
        → Inv n y s
        → (a ≡ false → b ≡ false → Inv n z s)
        → Inv n (if a then x else if b then y else z) s
    choose true b p q r = p refl
    choose false true p q r = q
    choose false false p q r = r refl refl
