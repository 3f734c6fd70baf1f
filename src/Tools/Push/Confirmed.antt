-- ===== src/Tools/Push/Confirmed.antt =====
-- What a push leaves staged, and how often it sends.
use mathlib.Core.List.{foldl}
use shatter_nc.Prelude.{
  ap, ◌≡◌, ◌≢◌, refl, ◌∙◌, Bool, true, false, not, ◌&&◌, ◌||◌, Option, none, some, List, [], ◌∷◌,
  arith, if◌then◌else◌, any, Bool-cases, Option-cases, inl, inr,
}
use shatter_nc.Prelude.Maps.{lookup, lookup-erase}
use shatter_nc.Prelude.Text.{Text, text_beq, text_eq}
use shatter_nc.Tools.{Pending, UnifiedToolView}
use shatter_nc.Tools.Pending.{merge_pending_onto_unified_cache}
use shatter_nc.Tools.Batch.{ToolChangeBatchResult, ToolChangeBatchItem}
use shatter_nc.Tools.Handlers.{ToolsPane}
use shatter_nc.Tools.Handlers.Guards.{Input}
use shatter_nc.Tools.Push.{
  finish, failures, Pushing, Answer, is_empty, batch_items, send_batch, begin_push, drop_confirmed,
  successes, take_results, set_staged, on_answer, on_loaded, discard_and_clear, blur,
}

-- a result names the key, which is not empty
abbrev pub names_key : Text → ToolChangeBatchResult → Bool
names_key key result = elim result.client_id [
  | none ↦ false
  | some k ↦ not (text_beq k []) && text_beq k key
]

drop-lookup :
    (key : Text) (pending : Pending) (r : ToolChangeBatchResult)
    → lookup key (drop_confirmed pending r) ≡ (if names_key key r then none else lookup key pending)
unfolding drop_confirmed
drop-lookup key pending r = elim (Option-cases r.client_id) [
  | inl anonymous ↦ rw (anonymous, drop_confirmed, names_key) refl
  | inr (k, named) ↦ elim (Bool-cases (text_beq k [])) [
    | inl blank ↦ rw (named, drop_confirmed, names_key, blank) refl
    | inr other ↦ rw (named, drop_confirmed, names_key, other) (lookup-erase k key pending)
  ]
]

if-or {ℓ} :
    {A : Type ℓ} (a b : Bool) (x y : A)
    → (if b then x else (if a then x else y)) ≡ (if a || b then x else y)
if-or true true x y = refl
if-or true false x y = refl
if-or false b x y = refl

foldl-lookup :
    (key : Text) (pending : Pending) (done : List ToolChangeBatchResult)
    → lookup key (foldl drop_confirmed pending done)
      ≡ (if any (names_key key) done then none else lookup key pending)
foldl-lookup key pending [] = refl
foldl-lookup key pending (r ∷ done) =
    foldl-lookup key (drop_confirmed pending r) done
    ∙ rw (drop-lookup key pending r)
        (if-or (names_key key r) (any (names_key key) done) none (lookup key pending))

finish-pane :
    (results : List ToolChangeBatchResult) (p : Pushing) → (finish results p).pane ≡ p.pane
unfolding finish
finish-pane results p = elim (Bool-cases (is_empty (failures results))) [
  | inr failed ↦ rw failed refl
  | inl fine ↦ elim (Bool-cases (is_empty (successes results))) [
    | inl nothing ↦ rw (fine, nothing) refl
    | inr done ↦ rw (fine, done) refl
  ]
]

done-lookup :
    (key : Text) (done : List ToolChangeBatchResult) (p ended : Pushing)
    → ended.pane ≡ p.pane
    → lookup key
        (if is_empty done
          then ended
          else set_staged (take_results done p.pane.staged) p).pane.staged.pending
      ≡ (if any (names_key key) done then none else lookup key p.pane.staged.pending)
unfolding take_results
done-lookup key [] p ended same = ap (λ (pane : ToolsPane). lookup key pane.staged.pending) same
done-lookup key (r ∷ done) p ended same = foldl-lookup key p.pane.staged.pending (r ∷ done)

-- Once the results are there, a change is staged exactly if it was just before and no success names
-- its key: failures and changes without a result stay staged, and an edit of a confirmed key that was
-- made while the batch was under way is dropped.
pub on_answer-lookup :
    (results : List ToolChangeBatchResult) (p : Pushing) (key : Text)
    → lookup key (on_answer (Answer.answered results) p).pane.staged.pending
      ≡ (if any (names_key key) (successes results) then none else lookup key p.pane.staged.pending)
unfolding on_answer
on_answer-lookup results p key =
    done-lookup key (successes results) p (finish results p) (finish-pane results p)

none-ne-some {ℓ} : {A : Type ℓ} (a : A) → none ≢ some a
none-ne-some a e = cc

send_batch-busy :
    (p : Pushing) (l items : List ToolChangeBatchItem)
    → (send_batch p l).1 ≡ some items
    → (is_empty items ≡ false) × ((send_batch p l).0.is_pushing_changes ≡ true)
unfolding send_batch
send_batch-busy p [] items sent = absurd (none-ne-some items sent)
send_batch-busy p (i ∷ l) [] sent = cc
send_batch-busy p (i ∷ l) (x ∷ xs) sent = (refl, refl)

or_true : (a b c : Bool) → c ≡ true → (a || b || c) ≡ true
or_true a b c h = ground arith

begin_push-busy :
    (focused : Option Input) (p : Pushing)
    → p.is_pushing_changes ≡ true
    → begin_push focused p ≡ (p, none)
unfolding begin_push
begin_push-busy focused p busy =
    rw (or_true (is_empty p.pane.staged.pending) (not p.pane.machine_id) p.is_pushing_changes busy)
      refl

-- What happens while a push runs: the pane changes in any way, by the user's edits or by a frame from
-- the server, the edits are discarded, the push button is clicked again, or the answer comes with a
-- success in it, after which the tools are still to be loaded.
pub data Running (started : Pushing) : Pushing → Type 0 where
  sent : Running started started
  changed :
      {p : Pushing}
      → Running started p
      → (pane : ToolsPane) → Running started (record p { pane = pane })
  discarded : {p : Pushing} → Running started p → Running started (discard_and_clear p)
  clicked :
      {p : Pushing}
      → Running started p
      → (focused : Option Input) → Running started (begin_push focused p).0
  confirmed :
      {p : Pushing}
      → Running started p
      → (results : List ToolChangeBatchResult) → is_empty (successes results) ≡ false
      → Running started (on_answer (Answer.answered results) p)

Running-busy :
    {started p : Pushing}
    → started.is_pushing_changes ≡ true
    → Running started p
    → p.is_pushing_changes ≡ true
unfolding discard_and_clear on_answer
Running-busy busy sent = busy
Running-busy busy (changed r pane) = Running-busy busy r
Running-busy busy (discarded {p} r) = elim (Bool-cases (is_empty p.pane.staged.pending)) [
  | inl nothing ↦ rw nothing (Running-busy busy r)
  | inr staged ↦ rw staged (Running-busy busy r)
]
Running-busy busy (clicked {p} r focused) =
    rw (begin_push-busy focused p (Running-busy busy r)) (Running-busy busy r)
Running-busy busy (confirmed r results success) = rw success (Running-busy busy r)

begin_push-sent :
    (focused : Option Input) (p : Pushing) (items : List ToolChangeBatchItem)
    → (begin_push focused p).1 ≡ some items
    → (is_empty items ≡ false) × ((begin_push focused p).0.is_pushing_changes ≡ true)
unfolding begin_push
begin_push-sent focused p items done =
    elim (Bool-cases
      (is_empty p.pane.staged.pending || not p.pane.machine_id || p.is_pushing_changes)) [
        | inl idle ↦ absurd (none-ne-some items (rw idle at done))
        | inr ready ↦ rw ready (
            send_batch-busy (record p { pane = blur focused p.pane })
              (batch_items (blur focused p.pane).staged.pending) items (rw ready at done))
      ]

finish-ended :
    (results : List ToolChangeBatchResult) (p : Pushing)
    → (finish results p).is_pushing_changes ≡ false
unfolding finish
finish-ended results p = ground arith

-- A batch is sent only with at least one item. From then on, whatever changes in the pane, however
-- often the button is clicked, and when the answer has confirmed changes and the tools are being
-- loaded, the push runs and no second batch is sent. It ends with a refusal, with an answer that
-- confirms nothing, and with the end of the loading.
pub begin_push-once :
    (focused again : Option Input) (p q : Pushing) (items : List ToolChangeBatchItem)
    (results : List ToolChangeBatchResult) (fresh_cache : Option UnifiedToolView) (message : Text)
    → (begin_push focused p).1 ≡ some items
    → Running (begin_push focused p).0 q
    → (is_empty items ≡ false)
      × (q.is_pushing_changes ≡ true)
      × ((begin_push again q).1 ≡ none)
      × ((on_answer (Answer.refused message) q).is_pushing_changes ≡ false)
      × ((on_answer (Answer.answered results) q).is_pushing_changes
          ≡ not (is_empty (successes results)))
      × ((on_loaded results fresh_cache q).is_pushing_changes ≡ false)
unfolding on_answer on_loaded
begin_push-once focused again p q items results fresh_cache message done running =
    let (some_item, started) = begin_push-sent focused p items done in
    let busy = Running-busy started running in
    (
      some_item,
      busy,
      ap (λ (r : Pushing × Option (List ToolChangeBatchItem)). r.1) (begin_push-busy again q busy),
      refl,
      answered (successes results) busy,
      loaded fresh_cache,
    )
  where
    answered :
        (done : List ToolChangeBatchResult)
        → q.is_pushing_changes ≡ true
        → (if is_empty done
            then finish results q
            else set_staged (take_results done q.pane.staged) q).is_pushing_changes
          ≡ not (is_empty done)
    answered [] busy = finish-ended results q
    answered (r ∷ done) busy = busy

    loaded : (o : Option UnifiedToolView) → (on_loaded results o q).is_pushing_changes ≡ false
    loaded none = finish-ended results q
    loaded (some view) = finish-ended results (
        set_staged
          (record q.pane.staged {
            cache = merge_pending_onto_unified_cache view q.pane.staged.pending;
          })
          q)
