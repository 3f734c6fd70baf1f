-- ===== src/Charts/Fetch/Polling.antt =====
-- The pane of a series asks again and again for its samples: the effect of
-- `CompressorTelemetrySeriesPane` in
-- frontend/src/components/machine-detail/CompressorTelemetrySeriesPane.tsx.
use mathlib.Core.List.{foldl}
use shatter_nc.Prelude.{
  ◌≡◌, refl, ap, ◌∙◌, Bool, true, false, Option, none, some, List, [], ◌∷◌, if◌then◌else◌,
}
use shatter_nc.Prelude.Text.{Text}
use shatter_nc.Charts.Fetch.{Failure, Outcome}

-- what the effect waits for: its first request, the timer, or a later request
pub data Phase : Type 0 where
  loading_first waiting requesting : Phase

pub record Pane (R : Type 0) : Type 0 where
  pub samples : List R
  pub loading : Bool
  pub error : Option Text
  pub cancelled : Bool
  pub phase : Phase

-- How the first request ends, the timer, how a later request ends, and the cleanup of the effect.
pub data Event (R : Type 0) : Type 0 where
  initial_ended : Outcome R → Event R
  timer_fired : Event R
  poll_ended : Outcome R → Event R
  unmounted : Event R

module _ {R : Type 0} where
  -- the effect begins
  unfoldable pub run_initial : List R → Pane R
  run_initial prior = record {
    samples = prior;
    loading = true;
    error = none;
    cancelled = false;
    phase = Phase.loading_first;
  }

  -- `runInitial` after its request, and the timer that is set then
  abbrev pub after_initial : Outcome R → Pane R → Pane R
  after_initial (Outcome.samples rows) p = record p {
    samples = rows;
    loading = false;
    error = none;
    phase = Phase.waiting;
  }
  after_initial (Outcome.failed Failure.aborted) p = record p {
    loading = false;
    phase = Phase.waiting;
  }
  after_initial (Outcome.failed (Failure.error message)) p = record p {
    loading = false;
    error = some message;
    phase = Phase.waiting;
  }

  -- `runPoll` after its request: a failure keeps the samples
  abbrev pub after_poll : Outcome R → Pane R → Pane R
  after_poll (Outcome.samples rows) p = record p {
    samples = rows;
    error = none;
    phase = Phase.waiting;
  }
  after_poll (Outcome.failed e) p = record p { phase = Phase.waiting }

  -- what an event does while the effect is not cancelled
  abbrev pub handle : Event R → Pane R → Pane R
  handle (Event.initial_ended o) p = after_initial o p
  handle Event.timer_fired p = record p { phase = Phase.requesting }
  handle (Event.poll_ended o) p = after_poll o p
  handle Event.unmounted p = record p { cancelled = true }

  unfoldable pub on_event : Pane R → Event R → Pane R
  on_event p e = if p.cancelled then p else handle e p

  unfoldable pub on_events : Pane R → List (Event R) → Pane R
  unfolding on_event
  on_events = foldl on_event

  -- the rows of the last request that succeeded before the cleanup
  abbrev pub last_good : List R → List (Event R) → List R
  last_good rows [] = rows
  last_good rows (Event.unmounted ∷ es) = rows
  last_good rows (Event.initial_ended (Outcome.samples next) ∷ es) = last_good next es
  last_good rows (Event.poll_ended (Outcome.samples next) ∷ es) = last_good next es
  last_good rows (e ∷ es) = last_good rows es

  if-true : (b : Bool) (p q : Pane R) → b ≡ true → (if b then p else q) ≡ p
  if-true true p q h = refl
  if-true false p q h = cc

  if-false : (b : Bool) (p q : Pane R) → b ≡ false → (if b then p else q) ≡ q
  if-false true p q h = cc
  if-false false p q h = refl

  on_events-cancelled : (es : List (Event R)) (p : Pane R) → p.cancelled ≡ true → on_events p es ≡ p
  unfolding on_events on_event
  on_events-cancelled [] p h = refl
  on_events-cancelled (e ∷ es) p h =
      ap (λ q. foldl on_event q es) (if-true p.cancelled p (handle e p) h)
      ∙ on_events-cancelled es p h

  on_events-cons :
      (e : Event R) (es : List (Event R)) (p : Pane R)
      → p.cancelled ≡ false
      → on_events p (e ∷ es) ≡ on_events (handle e p) es
  unfolding on_events on_event
  on_events-cons e es p h = ap (λ q. foldl on_event q es) (if-false p.cancelled p (handle e p) h)

  handle-samples :
      (e : Event R) (es : List (Event R)) (p : Pane R)
      → p.cancelled ≡ false
      → ((q : Pane R) → q.cancelled ≡ false → (on_events q es).samples ≡ last_good q.samples es)
      → (on_events (handle e p) es).samples ≡ last_good p.samples (e ∷ es)
  handle-samples (Event.initial_ended (Outcome.samples rows)) es p h ih = ih _ h
  handle-samples (Event.initial_ended (Outcome.failed Failure.aborted)) es p h ih = ih _ h
  handle-samples (Event.initial_ended (Outcome.failed (Failure.error m))) es p h ih = ih _ h
  handle-samples Event.timer_fired es p h ih = ih _ h
  handle-samples (Event.poll_ended (Outcome.samples rows)) es p h ih = ih _ h
  handle-samples (Event.poll_ended (Outcome.failed e)) es p h ih = ih _ h
  handle-samples Event.unmounted es p h ih =
      ap (λ (q : Pane R). q.samples) (on_events-cancelled es (record p { cancelled = true }) refl)

  on_events-from :
      (es : List (Event R)) (p : Pane R)
      → p.cancelled ≡ false
      → (on_events p es).samples ≡ last_good p.samples es
  unfolding on_events
  on_events-from [] p h = refl
  on_events-from (e ∷ es) p h =
      ap (λ (q : Pane R). q.samples) (on_events-cons e es p h)
      ∙ handle-samples e es p h (λ q k. on_events-from es q k)

  -- Whatever happens, in whatever order, the pane holds the rows of the last request that succeeded
  -- while it was shown: a failure never takes them away, and nothing changes them after the cleanup.
  pub on_events-last_good :
      (es : List (Event R)) (prior : List R)
      → (on_events (run_initial prior) es).samples ≡ last_good prior es
  unfolding run_initial
  on_events-last_good es prior = on_events-from es (run_initial prior) refl
