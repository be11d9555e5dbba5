-- ===== src/ConcurrentQueue/System/Counts.antt =====
-- How many threads sleep, and how a move or a signal changes that.
use concurrent_task_scheduli.Base.{
  ℕ, zero, suc, ◌+◌, ◌≤◌, ◌≡◌, refl, Bool, false, some, List, [], ◌∷◌, map, length, get_elem?, set,
  length-set, arith, ap, ◌⊎◌,
}
use concurrent_task_scheduli.ConcurrentQueue.System.{
  Place, count, wakes_all, wakes_taker, wakes_putter, is_taker_asleep, is_putter_asleep,
  is_taker_woken, is_putter_woken, Signal, unsent, unheard, heard, all_outside,
}

pub count-set :
    (w : Place → ℕ) (ps : List Place) (i : ℕ) (p q : Place)
    → get_elem? ps i ≡ some p
    → count w (set ps i q) + w p ≡ count w ps + w q
unfolding count
count-set w [] i p q e = ground arith
count-set w (x ∷ ps) zero p q e = ground arith
count-set w (x ∷ ps) (suc i) p q e = omega (arith, count-set w ps i p q e)

pub takers-le : (ps : List Place) → count is_taker_asleep ps + count is_taker_woken ps ≤ length ps
unfolding count
takers-le [] = omega arith
takers-le (p ∷ ps) = ground (arith, takers-le ps)

pub putters-le :
    (ps : List Place) → count is_putter_asleep ps + count is_putter_woken ps ≤ length ps
unfolding count
putters-le [] = omega arith
putters-le (p ∷ ps) = ground (arith, putters-le ps)

pub set_twice : (ps : List Place) (i : ℕ) (p q : Place) → set (set ps i p) i q ≡ set ps i q
set_twice [] i p q = refl
set_twice (x ∷ ps) zero p q = refl
set_twice (x ∷ ps) (suc i) p q = ap (λ l. x ∷ l) (set_twice ps i p q)

pub get_elem?-set :
    (ps : List Place) (i : ℕ) {p : Place} (q : Place)
    → get_elem? ps i ≡ some p
    → get_elem? (set ps i q) i ≡ some q
get_elem?-set [] i q e = cc
get_elem?-set (x ∷ ps) zero q e = refl
get_elem?-set (x ∷ ps) (suc i) q e = get_elem?-set ps i q e

-- After a broadcast nobody sleeps, and as many wait as before.
pub record Roused (ps qs : List Place) : Type 0 where
  pub no_taker : count is_taker_asleep qs ≡ 0
  pub no_putter : count is_putter_asleep qs ≡ 0
  pub takers : count is_taker_woken qs ≡ count is_taker_asleep ps + count is_taker_woken ps
  pub putters : count is_putter_woken qs ≡ count is_putter_asleep ps + count is_putter_woken ps
  pub same_length : length qs ≡ length ps

pub map-wakes_all : (ps : List Place) → Roused ps (map wakes_all ps)
unfolding count
map-wakes_all [] = record {
  no_taker = refl;
  no_putter = refl;
  takers = refl;
  putters = refl;
  same_length = refl;
}
map-wakes_all (p ∷ ps) = ground (arith, map-wakes_all ps)

-- A signal, where one is sent, takes one taker from asleep to woken if one sleeps.
pub record Signalled (asleep woken asleep' woken' : Place → ℕ) (sent : Bool) (ps qs : List Place)
    : Type 0 where
  pub waiting : count asleep qs + count woken qs ≡ count asleep ps + count woken ps
  pub fewer : (sent ≡ false) ⊎ (count asleep ps ≡ 0) ⊎ (count asleep qs + 1 ≡ count asleep ps)
  pub no_more : count asleep qs ≤ count asleep ps
  pub others_asleep : count asleep' qs ≡ count asleep' ps
  pub others_woken : count woken' qs ≡ count woken' ps
  pub same_length : length qs ≡ length ps

pub Signal-taker :
    {ps qs : List Place} {sent : Bool}
    → Signal is_taker_asleep wakes_taker ps sent qs
    → Signalled is_taker_asleep is_taker_woken is_putter_asleep is_putter_woken sent ps qs
Signal-taker unsent = ground arith
Signal-taker (unheard h) = ground arith
Signal-taker {ps} (heard i {p = p} e h) = ground (
  arith,
  count-set is_taker_asleep ps i p (wakes_taker p) e,
  count-set is_taker_woken ps i p (wakes_taker p) e,
  count-set is_putter_asleep ps i p (wakes_taker p) e,
  count-set is_putter_woken ps i p (wakes_taker p) e,
  length-set ps i (wakes_taker p),
)

pub Signal-putter :
    {ps qs : List Place} {sent : Bool}
    → Signal is_putter_asleep wakes_putter ps sent qs
    → Signalled is_putter_asleep is_putter_woken is_taker_asleep is_taker_woken sent ps qs
Signal-putter unsent = ground arith
Signal-putter (unheard h) = ground arith
Signal-putter {ps} (heard i {p = p} e h) = ground (
  arith,
  count-set is_taker_asleep ps i p (wakes_putter p) e,
  count-set is_taker_woken ps i p (wakes_putter p) e,
  count-set is_putter_asleep ps i p (wakes_putter p) e,
  count-set is_putter_woken ps i p (wakes_putter p) e,
  length-set ps i (wakes_putter p),
)

pub count-all_outside :
    (n : ℕ)
    → (count is_taker_asleep (all_outside n) ≡ 0)
      × (count is_taker_woken (all_outside n) ≡ 0)
      × (count is_putter_asleep (all_outside n) ≡ 0)
      × (count is_putter_woken (all_outside n) ≡ 0)
      × (length (all_outside n) ≡ n)
unfolding count
count-all_outside zero = (refl, refl, refl, refl, refl)
count-all_outside (suc n) = ground (arith, count-all_outside n)

-- One thread goes from the place `p` to the place `q`.
pub record Moved (p q : Place) (ps qs : List Place) : Type 0 where
  pub takers_asleep :
      count is_taker_asleep qs + is_taker_asleep p ≡ count is_taker_asleep ps + is_taker_asleep q
  pub takers_woken :
      count is_taker_woken qs + is_taker_woken p ≡ count is_taker_woken ps + is_taker_woken q
  pub putters_asleep :
      count is_putter_asleep qs + is_putter_asleep p
      ≡ count is_putter_asleep ps + is_putter_asleep q
  pub putters_woken :
      count is_putter_woken qs + is_putter_woken p ≡ count is_putter_woken ps + is_putter_woken q
  pub same_length : length qs ≡ length ps

pub set-Moved :
    (ps : List Place) (i : ℕ) {p : Place} (q : Place)
    → get_elem? ps i ≡ some p
    → Moved p q ps (set ps i q)
set-Moved ps i {p} q e = record {
  takers_asleep = count-set is_taker_asleep ps i p q e;
  takers_woken = count-set is_taker_woken ps i p q e;
  putters_asleep = count-set is_putter_asleep ps i p q e;
  putters_woken = count-set is_putter_woken ps i p q e;
  same_length = length-set ps i q;
}

pub Signal-unsent :
    {asleep : Place → ℕ} {wake : Place → Place} {ps qs : List Place} {sent : Bool}
    → Signal asleep wake ps sent qs
    → sent ≡ false
    → qs ≡ ps
Signal-unsent unsent e = refl
Signal-unsent (unheard h) e = cc
Signal-unsent (heard i g h) e = cc
