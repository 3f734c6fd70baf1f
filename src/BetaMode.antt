-- ===== src/BetaMode.antt =====
-- The clicks that switch the beta mode: `useBetaModeActivator` of frontend/src/hooks/useBetaMode.ts.
use mathlib.Core.List.{foldl}
use shatter_nc.Prelude.{
  ℕ, ◌+◌, ◌<◌, Bool, not, List, [], ◌∷◌, ◌++◌, if◌then◌else◌, ltb, leb, length, filter, arith, inl,
  inr, Bool-cases,
}

pub record Activator : Type 0 where
  pub is_beta_mode : Bool
  pub click_times : List ℕ

abbrev pub beta_click_threshold : ℕ
beta_click_threshold = 10

abbrev pub beta_click_window_ms : ℕ
beta_click_window_ms = 5_000

-- the clicks in the window that ends now, and the click now
unfoldable pub recent_clicks : ℕ → List ℕ → List ℕ
recent_clicks now times = filter (λ (t : ℕ). ltb now (t + beta_click_window_ms)) times ++ now ∷ []

unfoldable pub handle_click : Activator → ℕ → Activator
unfolding recent_clicks
handle_click a now =
    let times = recent_clicks now a.click_times in
    if leb beta_click_threshold (length times)
    then record { is_beta_mode = not a.is_beta_mode; click_times = [] }
    else record a { click_times = times }

unfoldable pub handle_clicks : Activator → List ℕ → Activator
unfolding handle_click
handle_clicks = foldl handle_click

-- Fewer clicks are kept than switch the mode.
abbrev pub IsActivator : Activator → Type 0
IsActivator a = length a.click_times < beta_click_threshold

handle_click-IsActivator : (a : Activator) (now : ℕ) → IsActivator (handle_click a now)
unfolding handle_click
handle_click-IsActivator a now = kept (recent_clicks now a.click_times) a
  where
    kept :
        (times : List ℕ) (a : Activator)
        → IsActivator (
            if leb beta_click_threshold (length times)
            then record { is_beta_mode = not a.is_beta_mode; click_times = [] }
            else record a { click_times = times })
    kept times a = elim (Bool-cases (leb beta_click_threshold (length times))) [
      | inl e ↦ rw e (omega arith)
      | inr e ↦ rw e (ground arith)
    ]

-- However often it is clicked, no more than nine clicks are remembered.
pub handle_clicks-IsActivator :
    (times : List ℕ) (a : Activator) → IsActivator a → IsActivator (handle_clicks a times)
unfolding handle_clicks
handle_clicks-IsActivator [] a h = h
handle_clicks-IsActivator (t ∷ times) a h =
    handle_clicks-IsActivator times (handle_click a t) (handle_click-IsActivator a t)
