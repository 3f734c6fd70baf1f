-- ===== src/Tools/Incoming/Settle.antt =====
-- Which staged changes an incoming view ends, and what is shown with the rest.
use mathlib.Core.List.{foldl}
use shatter_nc.Prelude.{
  ◌≡◌, refl, ◌∙◌, ap, sym, Bool, true, false, ◌||◌, List, [], ◌∷◌, map, arith, any, if◌then◌else◌,
}
use shatter_nc.Prelude.Maps.{lookup}
use shatter_nc.Tools.{UnifiedToolRow, UnifiedToolView, Slice, PendingChange, Pending}
use shatter_nc.Tools.Pending.{merge_server_tool_with_pending, merge_pending_onto_unified_cache}
use shatter_nc.Tools.Staging.{Staged}
use shatter_nc.Tools.Incoming.{
  merge_row, merge_rows, incoming_cache, settled_by_row, settled_by_pocket, delete_if, drop_settled,
  on_incoming,
}

delete_if-twice :
    (p q : PendingChange → Bool) (pending : Pending)
    → delete_if q (delete_if p pending) ≡ delete_if (λ c. p c || q c) pending
delete_if-twice p q [] = refl
delete_if-twice p q ((key, change) ∷ pending) = ground (arith, delete_if-twice p q pending)

delete_if-none : (pending : Pending) → delete_if (λ c. false) pending ≡ pending
delete_if-none [] = refl
delete_if-none (entry ∷ pending) = ap (λ (n : Pending). entry ∷ n) (delete_if-none pending)

-- the loops over the rows are one deletion
foldl-delete {ℓ} :
    {A : Type ℓ} (test : A → PendingChange → Bool) (xs : List A) (pending : Pending)
    → foldl (λ (next : Pending) (x : A). delete_if (test x) next) pending xs
      ≡ delete_if (λ c. any (λ x. test x c) xs) pending
foldl-delete test [] pending = sym (delete_if-none pending)
foldl-delete test (x ∷ xs) pending =
    foldl-delete test xs (delete_if (test x) pending)
    ∙ delete_if-twice (test x) (λ c. any (λ y. test y c) xs) pending

-- what the server says of a change, in its rows and in its empty pockets
unfoldable pub is_settled : UnifiedToolView → PendingChange → Bool
is_settled incoming change =
    any (λ row. settled_by_row incoming.tools row change) incoming.tools
    || any (λ pocket. settled_by_pocket incoming.tools pocket change) incoming.empty_pockets

drop_settled-filter :
    (incoming : UnifiedToolView) (pending : Pending)
    → drop_settled incoming pending ≡ delete_if (is_settled incoming) pending
unfolding drop_settled is_settled
drop_settled-filter incoming pending =
    foldl-delete (settled_by_pocket incoming.tools) incoming.empty_pockets _
    ∙ ap
        (delete_if
          (λ c. any (λ pocket. settled_by_pocket incoming.tools pocket c) incoming.empty_pockets))
        (foldl-delete (settled_by_row incoming.tools) incoming.tools pending)
    ∙ delete_if-twice _ _ pending

merge_rows-fresh :
    (pending : Pending) (rows : List UnifiedToolRow)
    → merge_rows pending rows [] ≡ (
      map (λ (row : UnifiedToolRow). merge_server_tool_with_pending row pending Slice.tool) rows,
      [],
    )
unfolding merge_rows merge_row lookup
merge_rows-fresh pending [] = refl
merge_rows-fresh pending (row ∷ rows) = rw (merge_rows-fresh pending rows) refl

incoming_cache-fresh :
    (pushing : Bool) (incoming : UnifiedToolView) (pending : Pending)
    → incoming_cache pushing incoming pending []
      ≡ (merge_pending_onto_unified_cache incoming pending, [])
unfolding incoming_cache merge_pending_onto_unified_cache
incoming_cache-fresh true incoming pending = refl
incoming_cache-fresh false incoming pending = rw (merge_rows-fresh pending incoming.tools) refl

-- When the server's view arrives, what is shown is that view with the staged changes merged in, also
-- while a push runs. A staged change goes exactly if a row or an empty pocket of its tool confirms it
-- and no push runs, and the others stay in their order. Nothing is to be tracked as recently pushed.
pub on_incoming-merged :
    (pushing : Bool) (incoming : UnifiedToolView) (s : Staged)
    → on_incoming true pushing incoming (s, []) ≡ (
      record {
        pending = if pushing then s.pending else delete_if (is_settled incoming) s.pending;
        cache = merge_pending_onto_unified_cache incoming s.pending;
      },
      [],
    )
unfolding on_incoming
on_incoming-merged pushing incoming s =
    rw (incoming_cache-fresh pushing incoming s.pending, drop_settled-filter incoming s.pending)
      refl
