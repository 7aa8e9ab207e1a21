-- ===== src/Game/Commands/Limits.antt =====
-- src/game/actor.rs: the bounds of the send interval and of the lag tolerance, whatever is asked for.
use ghostpp_rs.Prelude.{
  ℕ, ◌+◌, ◌*◌, ◌/◌, ◌%◌, ◌^◌, ◌≤◌, ◌<◌, ◌≡◌, refl, ap, ◌∙◌, arith, List, Option, none, some, max,
  as_u32,
}
use native.Mathlib.Nat.{mul-div_cancel, div-mul-le_self, lt-div-mul-add, le-div_iff_mul-le}
use ghostpp_rs.Game.{GameActor, Env}
use ghostpp_rs.Game.Lag.{effective_sync_limit}
use ghostpp_rs.Game.Hub.Settled.{settle}
use ghostpp_rs.Game.Chat.{send_all_chat}
use ghostpp_rs.Game.Chat.Settled.{send_all_chat-settle}
use ghostpp_rs.Game.Setup.{GameConfig, new}
use ghostpp_rs.Game.Commands.{
  latency_min, latency_max, sync_window_min_ms, sync_window_max_ms, clamp, change_latency,
  change_sync_limit,
}

-- The limits that GameActor::new sets up (new-IsWithinLimits).
unfoldable pub IsWithinLimits : GameActor → Type 0
IsWithinLimits g =
    ((latency_min ≤ g.latency_ms) × (g.latency_ms ≤ latency_max))
    × ((sync_window_min_ms ≤ g.sync_window_ms) × (g.sync_window_ms ≤ sync_window_max_ms))

clamp-bounds : (lo hi n : ℕ) → lo ≤ hi → (lo ≤ clamp lo hi n) × (clamp lo hi n ≤ hi)
unfolding clamp
clamp-bounds lo hi n h = (ground arith, ground arith)

clamp-inside : (lo hi n : ℕ) → lo ≤ n → n ≤ hi → clamp lo hi n ≡ n
unfolding clamp
clamp-inside lo hi n low high = ground arith

new-IsWithinLimits : (cfg : GameConfig) (env : Env) → IsWithinLimits (new cfg env)
unfolding IsWithinLimits new
new-IsWithinLimits cfg env =
    (clamp-bounds latency_min latency_max cfg.latency_ms (omega arith), (omega arith, omega arith))

latency-chat :
    (message : List ℕ) (g : GameActor) → (send_all_chat message g).latency_ms ≡ g.latency_ms
unfolding settle
latency-chat message g = ap (λ (h : GameActor). h.latency_ms) (send_all_chat-settle message g)

window-chat :
    (message : List ℕ) (g : GameActor) → (send_all_chat message g).sync_window_ms ≡ g.sync_window_ms
unfolding settle
window-chat message g = ap (λ (h : GameActor). h.sync_window_ms) (send_all_chat-settle message g)

chat-IsWithinLimits :
    (message : List ℕ) (g : GameActor) → IsWithinLimits g → IsWithinLimits (send_all_chat message g)
unfolding IsWithinLimits
chat-IsWithinLimits message g h = rw (latency-chat message g, window-chat message g) h

set_latency-IsWithinLimits :
    (n : ℕ) (g : GameActor)
    → IsWithinLimits g
    → IsWithinLimits (record g { latency_ms = clamp latency_min latency_max n })
unfolding IsWithinLimits
set_latency-IsWithinLimits n g h = (clamp-bounds latency_min latency_max n (omega arith), h.1)

set_window-IsWithinLimits :
    (n : ℕ) (g : GameActor)
    → IsWithinLimits g
    → IsWithinLimits (record g { sync_window_ms = clamp sync_window_min_ms sync_window_max_ms n })
unfolding IsWithinLimits
set_window-IsWithinLimits n g h =
    (h.0, clamp-bounds sync_window_min_ms sync_window_max_ms n (omega arith))

change_latency-IsWithinLimits :
    (env : Env) (value : Option ℕ) (g : GameActor)
    → IsWithinLimits g
    → IsWithinLimits (change_latency env value g)
unfolding change_latency
change_latency-IsWithinLimits env none g h = chat-IsWithinLimits _ g h
change_latency-IsWithinLimits env (some n) g h =
    chat-IsWithinLimits _ _ (set_latency-IsWithinLimits n g h)

change_sync_limit-IsWithinLimits :
    (env : Env) (value : Option ℕ) (g : GameActor)
    → IsWithinLimits g
    → IsWithinLimits (change_sync_limit env value g)
unfolding change_sync_limit
change_sync_limit-IsWithinLimits env none g h = chat-IsWithinLimits _ g h
change_sync_limit-IsWithinLimits env (some n) g h =
    chat-IsWithinLimits _ _ (set_window-IsWithinLimits _ g h)

-- How the number of batches and the window go together.
quotient_bounds : (w l : ℕ) → 5 ≤ l → l ≤ w → (max (w / l) 1 * l ≤ w) × (w < max (w / l) 1 * l + l)
quotient_bounds w l low high =
    let below : w / l * l ≤ w = div-mul-le_self w l in
    let above : w < w / l * l + l = lt-div-mul-add (omega (arith, low)) in
    let one : 1 ≤ w / l = (le-div_iff_mul-le (omega (arith, low))).1 (omega (arith, high)) in
    rw (max_one (w / l) one) (below, above)
  where
    max_one : (n : ℕ) → 1 ≤ n → max n 1 ≡ n
    max_one n h = ground arith

tolerance :
    (g : GameActor)
    → IsWithinLimits g
    → (effective_sync_limit g * g.latency_ms ≤ g.sync_window_ms)
      × (g.sync_window_ms < effective_sync_limit g * g.latency_ms + g.latency_ms)
unfolding IsWithinLimits effective_sync_limit
tolerance g h = quotient_bounds g.sync_window_ms g.latency_ms h.0.0 (omega (arith, h.0.1, h.1.0))

window-change_latency :
    (env : Env) (value : Option ℕ) (g : GameActor)
    → (change_latency env value g).sync_window_ms ≡ g.sync_window_ms
unfolding change_latency
window-change_latency env none g = window-chat _ g
window-change_latency env (some n) g = window-chat _ _

-- Whatever !latency and !synclimit ask for, the send interval stays between 5 and 500 milliseconds and
-- the lag tolerance between half a second and thirty seconds; and !latency leaves the tolerance as it
-- is, with the largest number of batches in force that fits into it at the new interval.
pub change_settings-IsWithinLimits :
    (env : Env) (value : Option ℕ) (g : GameActor)
    → IsWithinLimits g
    → let g' = change_latency env value g in
      IsWithinLimits g'
      × IsWithinLimits (change_sync_limit env value g)
      × (g'.sync_window_ms ≡ g.sync_window_ms)
      × (effective_sync_limit g' * g'.latency_ms ≤ g'.sync_window_ms)
      × (g'.sync_window_ms < effective_sync_limit g' * g'.latency_ms + g'.latency_ms)
change_settings-IsWithinLimits env value g h =
    let within = change_latency-IsWithinLimits env value g h in
    let bounds = tolerance (change_latency env value g) within in
    (
      within,
      change_sync_limit-IsWithinLimits env value g h,
      window-change_latency env value g,
      bounds.0,
      bounds.1,
    )

effective_sync_limit-chat :
    (message : List ℕ) (g : GameActor)
    → effective_sync_limit (send_all_chat message g) ≡ effective_sync_limit g
unfolding effective_sync_limit
effective_sync_limit-chat message g = rw (latency-chat message g, window-chat message g) refl

window_asked :
    (batches latency : ℕ)
    → 1 ≤ batches
    → sync_window_min_ms ≤ batches * latency
    → batches * latency ≤ sync_window_max_ms
    → clamp sync_window_min_ms sync_window_max_ms (as_u32 (max batches 1 * latency))
      ≡ batches * latency
window_asked batches latency one low high =
    rw (max_one batches one, small (batches * latency) high)
      (clamp-inside sync_window_min_ms sync_window_max_ms (batches * latency) low high)
  where
    max_one : (n : ℕ) → 1 ≤ n → max n 1 ≡ n
    max_one n h = ground arith

    small : (n : ℕ) → n ≤ 30000 → n % 2 ^ 32 ≡ n
    small n h = omega arith

effective_of_window :
    (batches : ℕ) (g : GameActor)
    → 1 ≤ batches
    → 1 ≤ g.latency_ms
    → effective_sync_limit (record g { sync_window_ms = batches * g.latency_ms }) ≡ batches
unfolding effective_sync_limit
effective_of_window batches g one positive = rw (mul-div_cancel batches positive) (ground arith)

-- !synclimit with a number of batches that takes between half a second and thirty seconds puts exactly
-- that number in force.
pub change_sync_limit_effective :
    (env : Env) (batches : ℕ) (g : GameActor)
    → 1 ≤ batches
    → 1 ≤ g.latency_ms
    → sync_window_min_ms ≤ batches * g.latency_ms
    → batches * g.latency_ms ≤ sync_window_max_ms
    → effective_sync_limit (change_sync_limit env (some batches) g) ≡ batches
unfolding change_sync_limit
change_sync_limit_effective env batches g one positive low high =
    effective_sync_limit-chat _ _
    ∙ rw (window_asked batches g.latency_ms one low high)
        (effective_of_window batches g one positive)
