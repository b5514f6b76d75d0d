-- ===== src/Stats/Window.antt =====
-- `MovingAverageMonitor` of src/vllm_router/stats/request_stats.py. Times are whole ticks of the
-- clock; the head of a list is the left end of a deque.
pub mod Contents
use production_stack.Base.Names.{ℕ, ◌+◌, Bool, List, [], ◌∷◌, ◌++◌}
use production_stack.Base.Tests.{ltb, if◌then◌else◌}
use production_stack.Base.Lists.{length}
use production_stack.Base.Int.{ℤ, negsuc, sum_ℤ}
use production_stack.Base.Float.{Float}

pub record Window : Type 0 where
  pub sliding_window_size : ℕ
  pub timestamps : List ℕ
  pub values : List ℤ

unfoldable pub init : ℕ → Window
init size = record { sliding_window_size = size; timestamps = []; values = [] }

-- `values.popleft()`, which is called only beside a `timestamps.popleft()`.
abbrev pub popleft {ℓ} : {A : Type ℓ} → List A → List A
popleft [] = []
popleft (x ∷ xs) = xs

-- while timestamps and timestamps[0] < timestamp - size: both popleft
unfoldable pub evict : ℕ → ℕ → List ℕ → List ℤ → List ℕ × List ℤ
evict size timestamp [] vs = ([], vs)
evict size timestamp (t ∷ ts) vs =
    let rest = evict size timestamp ts (popleft vs) in
    if ltb (t + size) timestamp then rest else (t ∷ ts, vs)

unfoldable pub update_no_value : Window → ℕ → Window
unfolding evict
update_no_value w timestamp =
    let kept = evict w.sliding_window_size timestamp w.timestamps w.values in
    record w { timestamps = kept.0; values = kept.1 }

unfoldable pub update : Window → ℕ → ℤ → Window
unfolding update_no_value
update w timestamp value =
    update_no_value
      (record w { timestamps = w.timestamps ++ timestamp ∷ []; values = w.values ++ value ∷ [] })
      timestamp

module _ (float : Float) where
  open float use {F, ratio}

  unfoldable pub get_average : Window → F
  get_average w = average w.values
    where
      average : List ℤ → F
      average [] = ratio (negsuc 0) 1
      average (v ∷ vs) = ratio (sum_ℤ (v ∷ vs)) (length (v ∷ vs))

pub get_sum : Window → ℤ
get_sum w = sum_ℤ w.values
