-- ===== src/Main/Controllers.antt =====
-- main.go: what `runNode` guarantees.
use v2sudoku.Prelude.{
  ℕ, suc, zero, ◌≡◌, refl, sym, ap, ◌∙◌, ◌≤◌, List, [], ◌∷◌, true, nat_beq_iff, inl, inr, ◌⊎◌, ◌+◌,
  arith,
}
use v2sudoku.Main.{
  Node, Place, top, asleep, returned, watching, closing, Reason, context_done, reload_asked,
  place_after, CloseReturns, close_returns, closed_by, closed, Own, ends, fails, starts, wakes,
  closes, reloads, own, cancel, request, Reach, start, next,
}

-- The controllers that run at a place.
abbrev pub at_place : Place → List ℕ
at_place (watching c) = c ∷ []
at_place (closing c why) = c ∷ []
at_place _ = []

closed_one : (c : ℕ) → closed c (c ∷ []) ≡ []
unfolding closed
closed_one c = ground (arith, nat_beq_iff c c)

Own-at_place :
    {n m : Node} → Own n m → n.controllers ≡ at_place n.place → m.controllers ≡ at_place m.place
Own-at_place (ends at_ h) i = i ∙ ap at_place at_
Own-at_place (fails at_ h) i = i ∙ ap at_place at_
Own-at_place {n} (starts at_ h) i = ap (◌∷◌ n.next_controller) (i ∙ ap at_place at_)
Own-at_place (wakes at_) i = i ∙ ap at_place at_
Own-at_place (closes c at_ h) i = i ∙ ap at_place at_
Own-at_place (reloads c at_ h) i = i ∙ ap at_place at_

place_after-at_place : (why : Reason) → at_place (place_after why) ≡ []
place_after-at_place context_done = refl
place_after-at_place reload_asked = refl

CloseReturns-at_place :
    {n m : Node}
    → CloseReturns n m
    → n.controllers ≡ at_place n.place
    → m.controllers ≡ at_place m.place
CloseReturns-at_place (close_returns c why at_) i =
    ap (closed c) (i ∙ ap at_place at_) ∙ closed_one c ∙ sym (place_after-at_place why)

-- In every run a controller is running exactly while `runNode` waits with it or is in its `Close`, and then
-- it is the only one: each that was started is closed before the next one starts, and before `runNode`
-- returns.
pub Reach-at_place : (n : Node) → Reach n → n.controllers ≡ at_place n.place
Reach-at_place n start = refl
Reach-at_place n (next {n = m} r (own st)) = Own-at_place st (Reach-at_place m r)
Reach-at_place n (next {n = m} r (closed_by st)) = CloseReturns-at_place st (Reach-at_place m r)
Reach-at_place n (next {n = m} r cancel) = Reach-at_place m r
Reach-at_place n (next {n = m} r request) = Reach-at_place m r

-- Steps of `runNode`, with the returns of the `Close` that it calls, counted.
pub data OwnRun : ℕ → Node → Node → Type 0 where
  here : {n : Node} → OwnRun zero n n
  further : {k : ℕ} {n m o : Node} → Own n m → OwnRun k m o → OwnRun (suc k) n o
  closed_then : {k : ℕ} {n m o : Node} → CloseReturns n m → OwnRun k m o → OwnRun (suc k) n o

-- How many such steps are left at a place once the context has ended.
abbrev left_to_do : Place → ℕ
left_to_do asleep = 2
left_to_do top = 1
left_to_do (watching c) = 4
left_to_do (closing c context_done) = 1
left_to_do (closing c reload_asked) = 3
left_to_do returned = 0

few : (p : Place) → left_to_do p ≤ 4
few asleep = omega arith
few top = omega arith
few (watching c) = omega arith
few (closing c context_done) = omega arith
few (closing c reload_asked) = omega arith
few returned = omega arith

Own-left_to_do :
    {n m : Node}
    → Own n m
    → n.done ≡ true
    → (m.done ≡ true) × (suc (left_to_do m.place) ≤ left_to_do n.place)
Own-left_to_do (ends at_ h) d = (d, omega (arith, ap left_to_do at_))
Own-left_to_do (fails at_ h) d = absurd (cc (h, d))
Own-left_to_do (starts at_ h) d = absurd (cc (h, d))
Own-left_to_do (wakes at_) d = (d, omega (arith, ap left_to_do at_))
Own-left_to_do (closes c at_ h) d = (d, omega (arith, ap left_to_do at_))
Own-left_to_do (reloads c at_ h) d = (d, omega (arith, ap left_to_do at_))

CloseReturns-left_to_do :
    {n m : Node}
    → CloseReturns n m
    → n.done ≡ true
    → (m.done ≡ true) × (suc (left_to_do m.place) ≤ left_to_do n.place)
CloseReturns-left_to_do (close_returns c context_done at_) d = (d, omega (arith, ap left_to_do at_))
CloseReturns-left_to_do (close_returns c reload_asked at_) d = (d, omega (arith, ap left_to_do at_))

OwnRun-left_to_do :
    {k : ℕ} {n m : Node}
    → OwnRun k n m
    → n.done ≡ true
    → (m.done ≡ true) × (k + left_to_do m.place ≤ left_to_do n.place)
OwnRun-left_to_do here d = (d, omega arith)
OwnRun-left_to_do (further st r) d =
    let (d', one) = Own-left_to_do st d in
    let (d'', rest) = OwnRun-left_to_do r d' in (d'', omega (arith, one, rest))
OwnRun-left_to_do (closed_then st r) d =
    let (d', one) = CloseReturns-left_to_do st d in
    let (d'', rest) = OwnRun-left_to_do r d' in (d'', omega (arith, one, rest))

Reach-OwnRun : {k : ℕ} {n m : Node} → Reach n → OwnRun k n m → Reach m
Reach-OwnRun r here = r
Reach-OwnRun r (further st rest) = Reach-OwnRun (next r (own st)) rest
Reach-OwnRun r (closed_then st rest) = Reach-OwnRun (next r (closed_by st)) rest

-- What a node is at: returned, in the `Close` of its only controller, or before a step of its own.
abbrev GoesOn : Node → Type 0
GoesOn n =
    ((n.place ≡ returned) × (n.controllers ≡ []))
    ⊎ ((c : ℕ) × (why : Reason) × (n.place ≡ closing c why) × (n.controllers ≡ c ∷ []))
    ⊎ ((m : Node) × Own n m)

goes_on :
    (n : Node) (p : Place)
    → n.place ≡ p
    → n.done ≡ true
    → n.controllers ≡ at_place n.place
    → GoesOn n
goes_on n top at_ d i = inr (inr (record n { place = returned }, ends at_ d))
goes_on n asleep at_ d i = inr (inr (record n { place = top }, wakes at_))
goes_on n (watching c) at_ d i =
    inr (inr (record n { place = closing c context_done }, closes c at_ d))
goes_on n (closing c why) at_ d i = inr (inl (c, why, at_, i ∙ ap at_place at_))
goes_on n returned at_ d i = inl (at_, i ∙ ap at_place at_)

-- Once the context has ended, `runNode` takes at most four more steps, the return of a `Close` that it has
-- called among them. It does not stop before it has returned with no controller running, but for
-- the time in which it waits for the `Close` of the only controller that runs.
pub OwnRun-returns :
    (n m : Node) (k : ℕ)
    → Reach n
    → n.done ≡ true
    → OwnRun k n m
    → (k ≤ 4)
      × (((m.place ≡ returned) × (m.controllers ≡ []))
          ⊎ ((c : ℕ) × (why : Reason) × (m.place ≡ closing c why) × (m.controllers ≡ c ∷ []))
          ⊎ ((o : Node) × Own m o))
OwnRun-returns n m k r d run =
    let (d', bound) = OwnRun-left_to_do run d in
    (
      omega (arith, bound, few n.place),
      goes_on m m.place refl d' (Reach-at_place m (Reach-OwnRun r run)),
    )
