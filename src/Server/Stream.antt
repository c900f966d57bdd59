-- ===== src/Server/Stream.antt =====
-- src/server/index.ts, the event stream of one client: its queue, its listener and the loop that writes.
-- An event stands for its encoding. A turn of the loop ends where it awaits a write, the race of the
-- wake-up with the heartbeat, or the write of a ping.
use mathlib.Core.List.{append_assoc, append-nil}
use whats_multi.Prelude.{
  ℕ, zero, suc, ◌+◌, ◌≡◌, refl, sym, ap, ◌∙◌, Bool, true, false, ◌||◌, List, [], ◌∷◌, ◌++◌, arith,
  leb, if◌then◌else◌, le→leb, lt→leb_false, length, length-append,
}

pub data Phase : Type 0 where
  writing waiting woken pinging ended : Phase

-- `nudge`: only a loop that waits is woken.
abbrev pub nudged : Phase → Phase
nudged waiting = woken
nudged p = p

pub record Stream {ℓ} (A : Type ℓ) : Type ℓ where
  pub queue : List A
  pub done : Bool
  pub aborted : Bool
  pub phase : Phase
  pub sent : List A

module _ {ℓ} {A : Type ℓ} where
  abbrev over : Stream A → Bool
  over s = s.done || s.aborted

  -- The inner loop, up to its next write, and the test that follows it.
  abbrev pub drained : List A → Stream A → Stream A
  drained [] s = record s { queue = []; phase = if over s then ended else waiting }
  drained (x ∷ xs) s = record s { queue = xs; sent = s.sent ++ x ∷ []; phase = writing }

  -- The test of the outer loop.
  unfoldable pub enter : Stream A → Stream A
  enter s = if over s then record s { phase = ended } else drained s.queue s

  unfoldable pub new_stream : Stream A
  unfolding enter
  new_stream =
      enter record { queue = []; done = false; aborted = false; phase = waiting; sent = [] }

  unfoldable pub nudge : Stream A → Stream A
  nudge s = record s { phase = nudged s.phase }

  -- The listener.
  unfoldable pub hear : ℕ → A → Stream A → Stream A
  unfolding nudge
  hear buffer x s = nudge (
      if leb buffer (length s.queue)
      then record s { done = true }
      else record s { queue = s.queue ++ x ∷ [] })

  -- `onClose`
  unfoldable pub ended_by_server : Stream A → Stream A
  unfolding nudge
  ended_by_server s = nudge (record s { done = true })

  -- `onAbort`
  unfoldable pub client_left : Stream A → Stream A
  unfolding nudge
  client_left s = nudge (record s { done = true; aborted = true })

  abbrev on_written : Phase → Stream A → Stream A
  on_written writing s = drained s.queue s
  on_written _ s = s

  unfoldable pub written : Stream A → Stream A
  written s = on_written s.phase s

  abbrev on_resumed : Phase → Stream A → Stream A
  on_resumed woken s = enter s
  on_resumed pinging s = enter s
  on_resumed _ s = s

  -- The loop goes on after a wake-up, or after its ping was written.
  unfoldable pub resumed : Stream A → Stream A
  unfolding enter
  resumed s = on_resumed s.phase s

  abbrev on_beat : Phase → Stream A → Stream A
  on_beat waiting s = if over s then enter s else record s { phase = pinging }
  on_beat _ s = s

  unfoldable pub beat : Stream A → Stream A
  unfolding enter
  beat s = on_beat s.phase s

  unfoldable pub all_written : ℕ → Stream A → Stream A
  unfolding written
  all_written zero s = s
  all_written (suc n) s = all_written n (written s)

  -- A write is in flight.
  abbrev pub busy : Bool → List A → List A → Stream A
  busy done queue sent = record {
    queue = queue;
    done = done;
    aborted = false;
    phase = writing;
    sent = sent;
  }

  -- Whatever is queued is written before the loop looks at `done` again.
  drains :
      (xs sent : List A)
      → all_written (suc (length xs)) (busy true xs sent)
        ≡ record { queue = []; done = true; aborted = false; phase = ended; sent = sent ++ xs }
  unfolding all_written written
  drains [] sent =
      ap (λ l. record { queue = []; done = true; aborted = false; phase = ended; sent = l })
        (sym (append-nil sent))
  drains (x ∷ xs) sent =
      drains xs (sent ++ x ∷ [])
      ∙ ap (λ l. record { queue = []; done = true; aborted = false; phase = ended; sent = l })
          (append_assoc sent (x ∷ []) xs)

  written-busy :
      (x : A) (xs sent : List A) → written (busy true (x ∷ xs) sent) ≡ busy true xs (sent ++ x ∷ [])
  unfolding written
  written-busy x xs sent = refl

  hear-full :
      (buffer : ℕ) (x : A) (queue sent : List A)
      → leb buffer (length queue) ≡ true
      → hear buffer x (busy false queue sent) ≡ busy true queue sent
  unfolding hear nudge
  hear-full buffer x queue sent full =
      ap (λ b. nudge (if b then busy true queue sent else busy false (queue ++ x ∷ []) sent)) full

  hear-room :
      (buffer : ℕ) (x : A) (queue sent : List A)
      → leb buffer (length queue) ≡ false
      → hear buffer x (busy true queue sent) ≡ busy true (queue ++ x ∷ []) sent
  unfolding hear nudge
  hear-room buffer x queue sent room =
      ap (λ b. nudge (if b then busy true queue sent else busy true (queue ++ x ∷ []) sent)) room

  -- A client that fell behind is not disconnected at once. While a write is in flight and the queue is
  -- full, the next event is dropped and the stream marked as done. Once the write is through, an event
  -- that follows is queued again: it is sent after everything that was queued, the dropped event is
  -- not, and only then the stream ends.
  pub gap_after_overflow :
      (buffer : ℕ) (x : A) (xs : List A) (dropped later : A) (sent : List A)
      → length (x ∷ xs) ≡ buffer
      → all_written
          (2 + length xs)
          (hear buffer later (written (hear buffer dropped (busy false (x ∷ xs) sent))))
        ≡ record {
          queue = [];
          done = true;
          aborted = false;
          phase = ended;
          sent = sent ++ (x ∷ xs ++ later ∷ []);
        }
  gap_after_overflow buffer x xs dropped later sent full =
      ap (λ t. all_written (2 + length xs) (hear buffer later (written t)))
        (hear-full buffer dropped (x ∷ xs) sent (le→leb buffer (suc (length xs)) (omega arith)))
      ∙ ap (all_written (2 + length xs)) (
          ap (hear buffer later) (written-busy x xs sent)
          ∙ hear-room buffer later xs (sent ++ x ∷ [])
              (lt→leb_false buffer (length xs) (omega arith)))
      ∙ ap (λ n. all_written n (busy true (xs ++ later ∷ []) (sent ++ x ∷ [])))
          (omega (arith, length-append xs (later ∷ [])))
      ∙ drains (xs ++ later ∷ []) (sent ++ x ∷ [])
      ∙ ap (λ l. record { queue = []; done = true; aborted = false; phase = ended; sent = l })
          (append_assoc sent (x ∷ []) (xs ++ later ∷ []))
