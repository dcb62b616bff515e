-- ===== src/EventLoop/Poll/Completion.antt =====
-- When the event loop ends, and what it leaves.
use mathlib.Core.Path.{ap₂}
use spiderfire.Prelude.{
  ℕ, zero, suc, ◌≡◌, refl, ◌⊎◌, inl, inr, Bool, true, false, ◌&&◌, [], ◌++◌, arith, ap, subst, ◌∙◌,
  sym, if◌then◌else◌,
}
use spiderfire.EventLoop.World.{World, Engine, Outcome, ok, err, out_of_fuel, after}
use spiderfire.EventLoop.Microtasks.Draining.{fuel-ne-ok, err-ne-ok}
use spiderfire.EventLoop.Poll.{
  Poll, ready, pending, conclude, is_empty, poll_event_loop, poll_from, run_event_loop, run_queues,
  run_tasks, report_rejections,
}

-- The world in which the unhandled promises have been reported, first in first out.
abbrev pub told : World → World
told w = record w { unhandled_rejections = []; reported = w.reported ++ w.unhandled_rejections }

told-eq : (w : World) → report_rejections w ≡ told w
unfolding report_rejections
told-eq w = refl

after-report :
    (r : Outcome × World) (w' : World)
    → after r (λ w. (ok, report_rejections w)) ≡ (ok, w')
    → (v : World) × (r ≡ (ok, v)) × (told v ≡ w')
after-report (ok, w) w' h = (w, refl, sym (told-eq w) ∙ ap (λ x. x.1) h)
after-report (err e, w) w' h = absurd (err-ne-ok h)
after-report (out_of_fuel, w) w' h = absurd (fuel-ne-ok h)

run_queues-ok :
    (e : Engine) (fuel : ℕ) (w w' : World)
    → run_queues e fuel w ≡ (ok, w')
    → (v : World) × (run_tasks e fuel w ≡ (ok, v)) × (told v ≡ w')
unfolding run_queues
run_queues-ok e fuel w w' h = after-report (run_tasks e fuel w) w' h

-- The queues of an idle world: nothing runs, and the rejections are reported.
run_queues-idle :
    (e : Engine) (fuel : ℕ) (w : World)
    → is_empty w ≡ true
    → run_queues e fuel w ≡ (ok, report_rejections w)
unfolding run_queues run_tasks is_empty
run_queues-idle e fuel w h = ground arith

is_empty-report : (w : World) → is_empty (report_rejections w) ≡ is_empty w
unfolding is_empty report_rejections
is_empty-report w = refl

abbrev world_of : Poll → World
world_of (ready o w) = w
world_of (pending c w) = w

conclude-parts :
    (b c : Bool) (w w' : World)
    → (if b && c then ready ok w else pending (is_empty w) w) ≡ ready ok w'
    → (w ≡ w') × (b ≡ true) × (c ≡ true)
conclude-parts true true w w' h = (ap world_of h, refl, refl)
conclude-parts true false w w' h = cc
conclude-parts false c w w' h = cc

-- What a poll that ends the loop well says of the world.
conclude-ready :
    (complete : Bool) (r : Outcome × World) (w' : World)
    → conclude complete r ≡ ready ok w'
    → (r ≡ (ok, w')) × (is_empty w' ≡ true) × (complete ≡ true)
conclude-ready complete (ok, w) w' h =
    let (same, empty, done) = conclude-parts (is_empty w) complete w w' h in
    (ap (λ v. (ok, v)) same, subst (λ v. is_empty v ≡ true) same empty, done)
conclude-ready complete (err e, w) w' h = cc
conclude-ready complete (out_of_fuel, w) w' h = cc

poll-ready :
    (e : Engine) (fuel : ℕ) (complete : Bool) (w w' : World)
    → poll_event_loop e fuel complete w ≡ ready ok w'
    → (is_empty w' ≡ true) × ((v : World) × (run_tasks e fuel w ≡ (ok, v)) × (told v ≡ w'))
unfolding poll_event_loop
poll-ready e fuel complete w w' h =
    let (ran, empty, _) = conclude-ready complete (run_queues e fuel w) w' h in
    (empty, run_queues-ok e fuel w w' ran)

Poll-cases :
    (p : Poll)
    → ((o : Outcome) × (w : World) × (p ≡ ready o w))
      ⊎ ((c : Bool) × (w : World) × (p ≡ pending c w))
Poll-cases (ready o w) = inl (o, w, refl)
Poll-cases (pending c w) = inr (c, w, refl)

module _ (e : Engine) (wait : World → World) (fuel : ℕ) where
  -- The worlds in which the loop is polled, with the flag `complete`.
  pub data Polled (c : Bool) (w : World) : Bool → World → Type 0 where
    first : Polled c w c w
    next :
        {b b' : Bool} {u v : World}
        → Polled c w b u
        → poll_event_loop e fuel b u ≡ pending b' v
        → Polled c w b' (wait v)

  -- The loop ends in the world `w'`: it is polled in a world `u`, the queues run from it to `v`, and
  -- then the promises that are unhandled in `v` are reported.
  pub record Ended (c : Bool) (w w' : World) : Type 0 where
    pub flag : Bool
    pub last : World
    pub ran : World
    pub polled : Polled c w flag last
    pub queues : run_tasks e fuel last ≡ (ok, ran)
    pub reported : w'.reported ≡ ran.reported ++ ran.unhandled_rejections
    pub forgotten : w'.unhandled_rejections ≡ []
    pub empty : is_empty w' ≡ true

  earlier :
      {c c' : Bool} {w v : World} {b : Bool} {u : World}
      → poll_event_loop e fuel c w ≡ pending c' v
      → Polled c' (wait v) b u
      → Polled c w b u
  earlier h first = next first h
  earlier h (next p k) = next (earlier h p) k

  poll_from-ready :
      (polls : ℕ) (c : Bool) (w v : World) (o : Outcome)
      → poll_event_loop e fuel c w ≡ ready o v
      → poll_from e wait fuel (suc polls) c w ≡ (o, v)
  unfolding poll_from
  poll_from-ready polls c w v o h = rw (h, poll_from)

  poll_from-pending :
      (polls : ℕ) (c c' : Bool) (w v : World)
      → poll_event_loop e fuel c w ≡ pending c' v
      → poll_from e wait fuel (suc polls) c w ≡ poll_from e wait fuel polls c' (wait v)
  unfolding poll_from
  poll_from-pending polls c c' w v h = rw (h, poll_from)

  ended : (c : Bool) (w w' : World) → poll_event_loop e fuel c w ≡ ready ok w' → Ended c w w'
  ended c w w' h =
      let (empty, (v, ran, same)) = poll-ready e fuel c w w' h in
      record {
        flag = c;
        last = w;
        ran = v;
        polled = first;
        queues = ran;
        reported = ap (λ x. x.reported) (sym same);
        forgotten = ap (λ x. x.unhandled_rejections) (sym same);
        empty = empty;
      }

  poll_from-ok :
      (polls : ℕ) (c : Bool) (w w' : World)
      → poll_from e wait fuel polls c w ≡ (ok, w')
      → Ended c w w'
  poll_from-ok zero c w w' h = absurd (fuel-ne-ok {w = w} {w' = w'} (unfold poll_from in h))
  poll_from-ok (suc polls) c w w' h = elim (Poll-cases (poll_event_loop e fuel c w)) [
    | inl (o, v, p) ↦
        let both = sym (poll_from-ready polls c w v o p) ∙ h in
        ended c w w' (p ∙ ap₂ ready (ap (λ x. x.0) both) (ap (λ x. x.1) both))
    | inr (c', v, p) ↦
        let rest =
          poll_from-ok polls c' (wait v) w' (sym (poll_from-pending polls c c' w v p) ∙ h) in
        record {
          flag = rest.flag;
          last = rest.last;
          ran = rest.ran;
          polled = earlier p rest.polled;
          queues = rest.queues;
          reported = rest.reported;
          forgotten = rest.forgotten;
          empty = rest.empty;
        }
  ]

  poll-idle :
      (c : Bool) (w : World)
      → is_empty w ≡ true
      → poll_event_loop e fuel c w
        ≡ (if c then ready ok (report_rejections w) else pending true (report_rejections w))
  unfolding poll_event_loop
  poll-idle c w h = rw (run_queues-idle e fuel w h) (rw (is_empty-report w ∙ h) (by_flag c))
    where
      by_flag :
          (b : Bool)
          → (if b then ready ok (report_rejections w) else pending true (report_rejections w))
            ≡ (if b then ready ok (report_rejections w) else pending true (report_rejections w))
      by_flag b = refl

  -- A loop whose queues are empty, and still are after the wait, ends well at the second poll: at
  -- each of the two polls the promises that are unhandled are added, in their order, to those
  -- reported, and none is unhandled after it.
  pub run_event_loop-idle :
      (w : World)
      → is_empty w ≡ true
      → is_empty (wait (told w)) ≡ true
      → run_event_loop e wait fuel 2 w ≡ (ok, told (wait (told w)))
  unfolding run_event_loop report_rejections
  run_event_loop-idle w h h2 =
      poll_from-pending 1 false true w (told w) (poll-idle false w h)
      ∙ poll_from-ready 0 true (wait (told w)) _ ok (poll-idle true (wait (told w)) h2)

-- When the event loop ends well, it was polled, from its first world on, down to a last world in
-- which the three queues ran without an error; to what was reported before are added, in their
-- order, the promises that were unhandled after the queues ran; none is unhandled any more; and no
-- native task, microtask or macrotask is left.
pub run_event_loop-ok :
    (e : Engine) (wait : World → World) (fuel polls : ℕ) (w w' : World)
    → run_event_loop e wait fuel polls w ≡ (ok, w')
    → Ended e wait fuel false w w'
unfolding run_event_loop
run_event_loop-ok e wait fuel polls w w' h = poll_from-ok e wait fuel polls false w w' h
