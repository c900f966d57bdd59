-- ===== src/Events/Twice.antt =====
-- A listener that is registered for one event twice.
use whats_multi.Events.{Wrapper, Bus, is_for, cached, same, present, remove_last, register, off}
use whats_multi.Prelude.{
  ℕ, ◌+◌, ◌≡◌, refl, sym, ap, subst, ◌∙◌, inl, inr, Bool, true, not, none, some, List, [], ◌∷◌,
  ◌++◌, arith, if◌then◌else◌, Bool-cases, keep, Text, text_eq_refl,
}

-- How often a listener is attached to an event.
abbrev pub bound : Text → ℕ → List Wrapper → ℕ
bound event listener [] = 0
bound event listener (w ∷ ws) = (if is_for event listener w then 1 else 0) + bound event listener ws

bound-append :
    (event : Text) (l : ℕ) (vs ws : List Wrapper)
    → bound event l (vs ++ ws) ≡ bound event l vs + bound event l ws
bound-append event l [] ws = omega arith
bound-append event l (v ∷ vs) ws = ground (arith, bound-append event l vs ws)

same_self : (w : Wrapper) → same w w ≡ true
same_self w = ground (arith, text_eq_refl w.event)

present-end : (w : Wrapper) (ws : List Wrapper) → present w (ws ++ w ∷ []) ≡ true
unfolding present
present-end w [] = ground (arith, same_self w)
present-end w (v ∷ ws) = ground (arith, present-end w ws)

remove_last-end : (w : Wrapper) (ws : List Wrapper) → remove_last w (ws ++ w ∷ []) ≡ ws
unfolding remove_last
remove_last-end w [] = rw (same_self w) refl
remove_last-end w (v ∷ ws) = rw (present-end w ws) (ap (λ t. v ∷ t) (remove_last-end w ws))

cached-dropped :
    (event : Text) (l : ℕ) (ws : List Wrapper)
    → cached event l (keep (λ v. not (is_for event l v)) ws) ≡ none
unfolding cached
cached-dropped event l [] = refl
cached-dropped event l (w ∷ ws) = elim (Bool-cases (is_for event l w)) [
  | inl e ↦ rw e (cached-dropped event l ws)
  | inr e ↦ rw (e, cached, e) (cached-dropped event l ws)
]

abbrev pub made : Bus → Bool → Text → ℕ → Wrapper
made b once event l = record { ref = b.next_ref; event = event; listener = l; once = once }

made-is_for :
    (b : Bus) (once : Bool) (event : Text) (l : ℕ) → is_for event l (made b once event l) ≡ true
made-is_for b once event l = ground (arith, text_eq_refl event)

register-fresh :
    (once : Bool) (event : Text) (l : ℕ) (b : Bus)
    → cached event l b.wrappers ≡ none
    → register once event l b ≡ record b {
      attached = b.attached ++ made b once event l ∷ [];
      wrappers = made b once event l ∷ b.wrappers;
      next_ref = b.next_ref + 1;
    }
unfolding register
register-fresh once event l b h = rw (h, register) refl

register-known :
    (once : Bool) (event : Text) (l : ℕ) (b : Bus) (w : Wrapper)
    → cached event l b.wrappers ≡ some w
    → register once event l b ≡ record b { attached = b.attached ++ w ∷ [] }
unfolding register
register-known once event l b w h = rw (h, register) refl

off-known :
    (event : Text) (l : ℕ) (b : Bus) (w : Wrapper)
    → cached event l b.wrappers ≡ some w
    → off event l b ≡ record b {
      attached = remove_last w b.attached;
      wrappers = keep (λ v. not (is_for event l v)) b.wrappers;
    }
unfolding off
off-known event l b w h = rw (h, off) refl

off-unknown :
    (event : Text) (l : ℕ) (b : Bus) → cached event l b.wrappers ≡ none → off event l b ≡ b
unfolding off
off-unknown event l b h = rw (h, off) refl

cached-made :
    (once : Bool) (event : Text) (l : ℕ) (b : Bus) (ws : List Wrapper)
    → cached event l (made b once event l ∷ ws) ≡ some (made b once event l)
unfolding cached
cached-made once event l b ws = rw (made-is_for b once event l) refl

-- What is left after two registrations and two removals.
abbrev pub Stuck : Text → ℕ → Bus → Type 0
Stuck event l twice =
    let left = off event l (off event l twice) in
    (bound event l left.attached ≡ 1) × (off event l left ≡ left)

-- A listener that is registered twice for one event, each time by `on` or by `once`, is still attached
-- after it was taken off twice, and no further `off` takes it away.
pub registered_twice_sticks :
    (f g : Bool) (event : Text) (l : ℕ) (b : Bus)
    → cached event l b.wrappers ≡ none
    → bound event l b.attached ≡ 0
    → Stuck event l (register g event l (register f event l b))
registered_twice_sticks f g event l b free alone =
    let w = made b f event l in
    let b1 : Bus = record b {
      attached = b.attached ++ w ∷ [];
      wrappers = w ∷ b.wrappers;
      next_ref = b.next_ref + 1;
    } in
    let b2 : Bus = record b1 { attached = b1.attached ++ w ∷ [] } in
    let b3 : Bus = record b2 {
      attached = b1.attached;
      wrappers = keep (λ v. not (is_for event l v)) b1.wrappers;
    } in
    let known = cached-made f event l b b.wrappers in
    let twice : register g event l (register f event l b) ≡ b2 =
      ap (register g event l) (register-fresh f event l b free)
      ∙ register-known g event l b1 w known in
    let once_off : off event l b2 ≡ b3 =
      off-known event l b2 w known
      ∙ ap (λ (ws : List Wrapper). record b3 { attached = ws }) (remove_last-end w b1.attached) in
    let stays : off event l b3 ≡ b3 = off-unknown event l b3 (cached-dropped event l b1.wrappers) in
    let left : off event l (off event l b2) ≡ b3 = ap (off event l) once_off ∙ stays in
    subst (Stuck event l) (sym twice) (
      ap (λ (x : Bus). bound event l x.attached) left
          ∙ bound-append event l b.attached (w ∷ [])
          ∙ rw (made-is_for b f event l) (omega arith),
      ap (off event l) left ∙ stays ∙ sym left,
    )
