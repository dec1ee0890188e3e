-- ===== src/Data/Grid/Search.antt =====
-- ofrak_core/ofrak/service/data_service.py: the binary search in a sorted axis, against a search
-- that passes over the whole axis.
use ofrak.Prelude.{
  ℕ, suc, ◌≤◌, ◌<◌, ◌≡◌, refl, Option, none, some, [], ◌∷◌, arith, ◌==◌, if◌then◌else◌,
}
use ofrak.Data.Grid.{Axis, bisect_left, insert_at, pop_at, set_at, value_at}

module _ {T : Type 0} where
  -- What an axis holds at a key.
  unfoldable pub find_key : Axis T → ℕ → Option T
  find_key [] k = none
  find_key ((j, v) ∷ axis) k = if j == k then some v else find_key axis k

  -- The keys ascend strictly, from a bound on.
  abbrev pub Above : ℕ → Axis T → Type 0
  Above b [] = Unit
  Above b ((k, _) ∷ axis) = (b ≤ k) × Above (suc k) axis

  pub find_below : (b k : ℕ) (axis : Axis T) → Above b axis → k < b → find_key axis k ≡ none
  unfolding find_key
  find_below b k [] h l = refl
  find_below b k ((j, v) ∷ axis) h l = ground (arith, find_below (suc j) k axis h.1 (omega arith))

  pub value_at-find :
      (b k : ℕ) (axis : Axis T)
      → Above b axis
      → value_at axis (bisect_left axis k) k ≡ find_key axis k
  unfolding find_key value_at bisect_left
  value_at-find b k [] h = refl
  value_at-find b k ((j, v) ∷ axis) h =
      ground (arith, value_at-find (suc j) k axis h.1, find_below (suc j) k axis h.1)

  pub find-insert :
      (b k m : ℕ) (v : T) (axis : Axis T)
      → Above b axis
      → find_key (insert_at (bisect_left axis k) (k, v) axis) m
        ≡ (if k == m then some v else find_key axis m)
  unfolding find_key insert_at bisect_left
  find-insert b k m v [] h = refl
  find-insert b k m v ((j, w) ∷ axis) h =
      ground (arith, find-insert (suc j) k m v axis h.1, find_below (suc j) k axis h.1)

  pub insert-Above :
      (b k : ℕ) (v : T) (axis : Axis T)
      → Above b axis
      → b ≤ k
      → find_key axis k ≡ none
      → Above b (insert_at (bisect_left axis k) (k, v) axis)
  unfolding find_key insert_at bisect_left
  insert-Above b k v [] h l e = (l, tt)
  insert-Above b k v ((j, w) ∷ axis) h l e = ground (arith, insert-Above (suc j) k v axis h.1)

  -- a key that is there
  pub find-set :
      (b k m : ℕ) (v w : T) (axis : Axis T)
      → Above b axis
      → find_key axis k ≡ some v
      → find_key (set_at (bisect_left axis k) (k, w) axis) m
        ≡ (if k == m then some w else find_key axis m)
  unfolding find_key set_at bisect_left
  find-set b k m v w [] h e = cc
  find-set b k m v w ((j, u) ∷ axis) h e =
      ground (arith, find-set (suc j) k m v w axis h.1, find_below (suc j) k axis h.1)

  pub set-Above :
      (b k : ℕ) (v w : T) (axis : Axis T)
      → Above b axis
      → find_key axis k ≡ some v
      → Above b (set_at (bisect_left axis k) (k, w) axis)
  unfolding find_key set_at bisect_left
  set-Above b k v w [] h e = tt
  set-Above b k v w ((j, u) ∷ axis) h e =
      ground (arith, set-Above (suc j) k v w axis h.1, find_below (suc j) k axis h.1)

  pub find-pop :
      (b k m : ℕ) (v : T) (axis : Axis T)
      → Above b axis
      → find_key axis k ≡ some v
      → find_key (pop_at (bisect_left axis k) axis) m ≡ (if k == m then none else find_key axis m)
  unfolding find_key pop_at bisect_left
  find-pop b k m v [] h e = cc
  find-pop b k m v ((j, u) ∷ axis) h e = ground (
    arith,
    find-pop (suc j) k m v axis h.1,
    find_below (suc j) k axis h.1,
    find_below (suc j) m axis h.1,
  )

  pub Above-weaken : (a b : ℕ) (axis : Axis T) → a ≤ b → Above b axis → Above a axis
  Above-weaken a b [] l h = tt
  Above-weaken a b ((j, u) ∷ axis) l h = (omega arith, h.1)

  pub pop-Above :
      (b k : ℕ) (v : T) (axis : Axis T)
      → Above b axis
      → find_key axis k ≡ some v
      → Above b (pop_at (bisect_left axis k) axis)
  unfolding find_key pop_at bisect_left
  pop-Above b k v [] h e = tt
  pop-Above b k v ((j, u) ∷ axis) h e = ground (
    arith,
    pop-Above (suc j) k v axis h.1,
    find_below (suc j) k axis h.1,
    Above-weaken b (suc j) axis (omega arith) h.1,
  )
