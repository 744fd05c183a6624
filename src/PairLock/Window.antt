-- ===== src/PairLock/Window.antt =====
-- velocitypairlock/velocity.go: the points that a tracker keeps are those within its window.
use upcow.Base.{
  ℕ, Bool, true, false, ◌+◌, ◌≤◌, List, [], ◌∷◌, ◌++◌, some, ◌≡◌, refl, arith, if◌then◌else◌, ltb,
  ap, ◌∙◌, sym,
}
use upcow.PairLock.Velocity.{PricePoint, VelocityTracker, prune, add}

-- Points in ascending order of time, from `start` up to `end`.
abbrev pub Ascends : ℕ → ℕ → List PricePoint → Type 0
Ascends start end [] = start ≤ end
Ascends start end (p ∷ ps) = (start ≤ p.at) × Ascends p.at end ps

-- Several points, each added at its time.
unfoldable pub add_all : List PricePoint → VelocityTracker → VelocityTracker
unfolding add
add_all [] t = t
add_all (p ∷ ps) t = add_all ps (add p.at (some p.at) p.cents t)

-- The points that lie within the window that ends at `end`.
unfoldable pub within : ℕ → ℕ → List PricePoint → List PricePoint
within window end [] = []
within window end (p ∷ ps) =
    let rest = within window end ps in if ltb (p.at + window) end then rest else p ∷ rest

-- Where times ascend, no point after one within the window is before it.
within-all :
    (window end start : ℕ) (ps : List PricePoint)
    → end ≤ start + window
    → Ascends start end ps
    → within window end ps ≡ ps
unfolding within
within-all window end start [] h a = refl
within-all window end start (p ∷ ps) h a =
    let rest = within-all window end p.at ps (omega (arith, h, a.0)) a.1 in ground arith

Ascends-start :
    (start start' end : ℕ) (ps : List PricePoint)
    → start ≤ start'
    → Ascends start' end ps
    → Ascends start end ps
Ascends-start start start' end [] h a = omega (arith, h, a)
Ascends-start start start' end (p ∷ ps) h a = (omega (arith, h, a.0), a.1)

-- Pruning points in ascending order keeps those within the window.
prune-within :
    (window end start : ℕ) (ps : List PricePoint)
    → Ascends start end ps
    → prune window end ps ≡ within window end ps
unfolding prune within
prune-within window end start [] a = refl
prune-within window end start (p ∷ ps) a =
    let rest = prune-within window end p.at ps a.1 in
    let all : end ≤ p.at + window → within window end ps ≡ ps =
      λ h. within-all window end p.at ps h a.1 in
    ground arith

-- A point that has left the window stays out of every later one.
within-within :
    (window end end' : ℕ) (ps : List PricePoint)
    → end ≤ end'
    → within window end' (within window end ps) ≡ within window end' ps
unfolding within
within-within window end end' [] h = refl
within-within window end end' (p ∷ ps) h =
    let rest = within-within window end end' ps h in ground arith

within-append :
    (window end : ℕ) (ps qs : List PricePoint)
    → within window end (ps ++ qs) ≡ within window end ps ++ within window end qs
unfolding within
within-append window end [] qs = refl
within-append window end (p ∷ ps) qs = let rest = within-append window end ps qs in ground arith

-- The last of the points' times.
abbrev pub latest : ℕ → List PricePoint → ℕ
latest start [] = start
latest start (p ∷ ps) = latest p.at ps

Ascends-append :
    (start end : ℕ) (ps : List PricePoint) (q : PricePoint)
    → Ascends start end ps
    → end ≤ q.at
    → Ascends start q.at (ps ++ q ∷ [])
Ascends-append start end [] q a h = (omega (arith, a, h), omega arith)
Ascends-append start end (p ∷ ps) q a h = (a.0, Ascends-append p.at end ps q a.1 h)

within-Ascends :
    (window now start end : ℕ) (ps : List PricePoint)
    → Ascends start end ps
    → Ascends start end (within window now ps)
unfolding within
within-Ascends window now start end [] a = a
within-Ascends window now start end (p ∷ ps) a =
    kept (ltb (p.at + window) now) (within-Ascends window now p.at end ps a.1)
  where
    kept :
        (old : Bool)
        → Ascends p.at end (within window now ps)
        → Ascends start end (if old then within window now ps else p ∷ within window now ps)
    kept true rest = Ascends-start start p.at end (within window now ps) a.0 rest
    kept false rest = (a.0, rest)

within-last : (window : ℕ) (p : PricePoint) → within window p.at (p ∷ []) ≡ p ∷ []
unfolding within
within-last window p = ground arith

-- A point that is added after points that were pruned.
add-within :
    (start now : ℕ) (past : List PricePoint) (p : PricePoint) (t : VelocityTracker)
    → Ascends start now past
    → now ≤ p.at
    → t.points ≡ within t.window now past
    → (add p.at (some p.at) p.cents t).points ≡ within t.window p.at (past ++ p ∷ [])
unfolding add
add-within start now past p t a h e =
    ap (λ ps. prune t.window p.at (ps ++ p ∷ [])) e
    ∙ prune-within t.window p.at start (within t.window now past ++ p ∷ []) (
        Ascends-append start now (within t.window now past) p
          (within-Ascends t.window now start now past a) h)
    ∙ within-append t.window p.at (within t.window now past) (p ∷ [])
    ∙ ap (λ ps. ps ++ within t.window p.at (p ∷ [])) (within-within t.window now p.at past h)
    ∙ sym (within-append t.window p.at past (p ∷ []))

append_assoc :
    (ps : List PricePoint) (p : PricePoint) (qs : List PricePoint)
    → (ps ++ p ∷ []) ++ qs ≡ ps ++ p ∷ qs
append_assoc [] p qs = refl
append_assoc (q ∷ ps) p qs = ap (λ r. q ∷ r) (append_assoc ps p qs)

add_all-past :
    (ps : List PricePoint) (start now end : ℕ) (past : List PricePoint) (t : VelocityTracker)
    → Ascends start now past
    → Ascends now end ps
    → t.points ≡ within t.window now past
    → (add_all ps t).points ≡ within t.window (latest now ps) (past ++ ps)
unfolding add_all add
add_all-past [] start now end past t a b e = e ∙ ap (within t.window now) (sym (append_nil past))
  where
    append_nil : (qs : List PricePoint) → qs ++ [] ≡ qs
    append_nil [] = refl
    append_nil (q ∷ qs) = ap (λ r. q ∷ r) (append_nil qs)
add_all-past (p ∷ ps) start now end past t a b e =
    add_all-past ps start p.at end (past ++ p ∷ []) (add p.at (some p.at) p.cents t)
      (Ascends-append start now past p a b.0) b.1 (add-within start now past p t a b.0 e)
    ∙ ap (within t.window (latest p.at ps)) (append_assoc past p ps)

-- After points are added to an empty tracker, each at its own time and in ascending order of time,
-- it holds just those that are no older than its window at the time of the last, in their order.
pub add_all-within :
    (ps : List PricePoint) (end : ℕ) (t : VelocityTracker)
    → t.points ≡ []
    → Ascends 0 end ps
    → (add_all ps t).points ≡ within t.window (latest 0 ps) ps
unfolding within
add_all-within ps end t e a = add_all-past ps 0 0 end [] t (omega arith) a e
