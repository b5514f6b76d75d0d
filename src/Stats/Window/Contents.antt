-- ===== src/Stats/Window/Contents.antt =====
-- What the sliding window holds.
use mathlib.Core.List.{append-nil}
use production_stack.Base.Names.{
  ℕ, ◌+◌, ◌≤◌, ◌≡◌, refl, ap, ◌∙◌, subst, inl, inr, Bool, List, [], ◌∷◌, ◌++◌, map, arith,
}
use production_stack.Base.Tests.{leb, Bool-cases}
use production_stack.Base.Lists.{filter, All, map-append}
use production_stack.Base.Int.{ℤ}
use production_stack.Stats.Window.{Window, init, evict, update, update_no_value}

abbrev times : List (ℕ × ℤ) → List ℕ
times = map (λ p. p.0)

abbrev amounts : List (ℕ × ℤ) → List ℤ
amounts = map (λ p. p.1)

-- The window holds exactly these data points.
abbrev pub Holds : Window → List (ℕ × ℤ) → Type 0
Holds w ps = (w.timestamps ≡ times ps) × (w.values ≡ amounts ps)

-- The data point is at most `size` older than `now`.
abbrev pub recent : ℕ → ℕ → ℕ × ℤ → Bool
recent size now p = leb now (p.0 + size)

-- Times do not go back.
abbrev pub Ordered : ℕ → List (ℕ × ℤ) → Type 0
Ordered t [] = Unit
Ordered t (p ∷ ps) = (t ≤ p.0) × Ordered p.0 ps

filter_all :
    (size now t : ℕ) (ps : List (ℕ × ℤ))
    → now ≤ t + size
    → Ordered t ps
    → filter (recent size now) ps ≡ ps
filter_all size now t [] h o = refl
filter_all size now t (p ∷ ps) h o = ground (arith, filter_all size now p.0 ps (omega arith) o.1)

evict-filter :
    (size now t : ℕ) (ps : List (ℕ × ℤ))
    → Ordered t ps
    → evict size now (times ps) (amounts ps)
      ≡ (times (filter (recent size now) ps), amounts (filter (recent size now) ps))
unfolding evict
evict-filter size now t [] o = refl
evict-filter size now t (p ∷ ps) o =
    ground (arith, evict-filter size now p.0 ps o.1, filter_all size now p.0 ps)

Ordered-mono : (s t : ℕ) (ps : List (ℕ × ℤ)) → s ≤ t → Ordered t ps → Ordered s ps
Ordered-mono s t [] h o = tt
Ordered-mono s t (p ∷ ps) h o = (omega arith, o.1)

Ordered-filter :
    (size now t : ℕ) (ps qs : List (ℕ × ℤ))
    → Ordered t (ps ++ qs)
    → Ordered t (filter (recent size now) ps ++ qs)
Ordered-filter size now t [] qs o = o
Ordered-filter size now t (p ∷ ps) qs o = elim (Bool-cases (recent size now p)) [
  | inl e ↦ rw e (o.0, Ordered-filter size now p.0 ps qs o.1)
  | inr e ↦ rw e (Ordered-mono t p.0 _ o.0 (Ordered-filter size now p.0 ps qs o.1))
]

Ordered-prefix : (t : ℕ) (ps qs : List (ℕ × ℤ)) → Ordered t (ps ++ qs) → Ordered t ps
Ordered-prefix t [] qs o = tt
Ordered-prefix t (p ∷ ps) qs o = (o.0, Ordered-prefix p.0 ps qs o.1)

filter-filter :
    (size s now : ℕ) (ps qs : List (ℕ × ℤ))
    → s ≤ now
    → filter (recent size now) (filter (recent size s) ps ++ qs)
      ≡ filter (recent size now) (ps ++ qs)
filter-filter size s now [] qs h = refl
filter-filter size s now (p ∷ ps) qs h = ground (arith, filter-filter size s now ps qs h)

update_no_value-Holds :
    (w : Window) (now : ℕ) (ps : List (ℕ × ℤ))
    → Holds w ps
    → Ordered 0 ps
    → Holds (update_no_value w now) (filter (recent w.sliding_window_size now) ps)
unfolding update_no_value
update_no_value-Holds w now ps h o =
    rw (h.0, h.1, evict-filter w.sliding_window_size now 0 ps o) (refl, refl)

update-Holds :
    (w : Window) (t : ℕ) (v : ℤ) (ps : List (ℕ × ℤ))
    → Holds w ps
    → Ordered 0 (ps ++ (t, v) ∷ [])
    → Holds (update w t v) (filter (recent w.sliding_window_size t) (ps ++ (t, v) ∷ []))
unfolding update
update-Holds w t v ps h o =
    update_no_value-Holds _ t (ps ++ (t, v) ∷ [])
      (
        rw (h.0, map-append (λ (p : ℕ × ℤ). p.0) ps ((t, v) ∷ [])),
        rw (h.1, map-append (λ (p : ℕ × ℤ). p.1) ps ((t, v) ∷ [])),
      )
      o

size-update :
    (w : Window) (t : ℕ) (v : ℤ) → (update w t v).sliding_window_size ≡ w.sliding_window_size
unfolding update
size-update w t v = refl

-- The data points that reach one monitor, oldest first.
unfoldable pub feed : Window → List (ℕ × ℤ) → Window
feed w [] = w
feed w (p ∷ ps) = feed (update w p.0 p.1) ps

append_cons :
    (ps : List (ℕ × ℤ)) (q : ℕ × ℤ) (qs : List (ℕ × ℤ)) → (ps ++ q ∷ []) ++ qs ≡ ps ++ (q ∷ qs)
append_cons [] q qs = refl
append_cons (p ∷ ps) q qs = ap (◌∷◌ p) (append_cons ps q qs)

feed-Holds :
    (size now : ℕ) (w : Window) (ps qs : List (ℕ × ℤ))
    → w.sliding_window_size ≡ size
    → Holds w ps
    → Ordered 0 (ps ++ qs)
    → All (λ q. q.0 ≤ now) qs
    → Holds (update_no_value (feed w qs) now) (filter (recent size now) (ps ++ qs))
unfolding feed
feed-Holds size now w ps [] e h o l =
    rw (append-nil, ← e) (update_no_value-Holds w now ps h (rw append-nil at o))
feed-Holds size now w ps ((t, v) ∷ qs) e h o l =
    let seen : List (ℕ × ℤ) = ps ++ (t, v) ∷ [] in
    let o' : Ordered 0 (seen ++ qs) = rw (append_cons ps (t, v) qs) o in
    let rest =
      feed-Holds size now (update w t v) (filter (recent size t) seen) qs (size-update w t v ∙ e)
        (rw (← e) (update-Holds w t v ps h (Ordered-prefix 0 seen qs o')))
        (Ordered-filter size t 0 seen qs o') l.1 in
    subst (Holds (update_no_value (feed (update w t v) qs) now))
      (filter-filter size t now seen qs l.0
        ∙ ap (filter (recent size now)) (append_cons ps (t, v) qs))
      rest

-- A monitor that has been fed data points in the order of their times, and is then brought to the
-- time `now`, which none of them lies after, holds exactly the data points that are at most
-- `sliding_window_size` older than `now`: times and values, in their order.
pub feed-contents :
    (size now : ℕ) (ps : List (ℕ × ℤ))
    → Ordered 0 ps
    → All (λ p. p.0 ≤ now) ps
    → Holds (update_no_value (feed (init size) ps) now) (filter (recent size now) ps)
unfolding init
feed-contents size now ps o l = feed-Holds size now (init size) [] ps refl (refl, refl) o l
