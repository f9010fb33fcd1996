-- ===== src/Panel/PasswordWork.antt =====
-- internal/panel/auth_protector.go: `tryAcquirePasswordWork`, the bound on concurrent password hashing.
-- The compare-and-swap loop is one step: it ends with the swap of a value that was not stale.
mod Tests
use grok_search_mcp.Base.{
  ℕ, zero, suc, ◌+◌, ◌-◌, ◌≤◌, ◌<◌, ◌≡◌, refl, inl, inr, Bool, true, false, Option, none, some,
  List, [], ◌∷◌, ◌++◌, arith, leb, ltb, if◌then◌else◌, length, get_elem?, set, Option-cases,
  Bool-cases,
}

-- `passwordWorkCurrent` and its counters. `permits` has one entry for each function that has been
-- handed out: whether its `releaseOnce` is still to come.
pub record PasswordWork : Type 0 where
  pub current : ℕ
  pub maximum_concurrent : ℕ
  pub admissions : ℕ
  pub rejections : ℕ
  pub permits : List Bool

abbrev pub idle : ℕ → PasswordWork
idle maximum_concurrent = record {
  current = 0;
  maximum_concurrent = maximum_concurrent;
  admissions = 0;
  rejections = 0;
  permits = [];
}

-- Whether work is admitted.
unfoldable pub try_acquire_password_work : PasswordWork → Bool × PasswordWork
try_acquire_password_work w =
    if leb w.maximum_concurrent w.current
    then (false, record w { rejections = w.rejections + 1 })
    else (
      true,
      record w {
        current = w.current + 1;
        admissions = w.admissions + 1;
        permits = w.permits ++ (true ∷ []);
      },
    )

-- The function that gives a permit back.
unfoldable pub release_work : PasswordWork → ℕ → PasswordWork
release_work w i = elim (get_elem? w.permits i) [
  | none ↦ w
  | some open_still ↦
      if open_still
      then record w { current = w.current - 1; permits = set w.permits i false }
      else w
]

-- What the callers do, in some order.
pub data WorkCall : Type 0 where
  acquires : WorkCall
  releases : ℕ → WorkCall

unfoldable pub work_step : PasswordWork → WorkCall → PasswordWork
work_step w acquires = (try_acquire_password_work w).1
work_step w (releases i) = release_work w i

unfoldable pub run_work : PasswordWork → List WorkCall → PasswordWork
run_work w [] = w
run_work w (c ∷ calls) = run_work (work_step w c) calls

-- The permits that are out.
unfoldable pub open_permits : List Bool → ℕ
open_permits [] = 0
open_permits (true ∷ bs) = suc (open_permits bs)
open_permits (false ∷ bs) = open_permits bs

open_permits-append : (bs : List Bool) → open_permits (bs ++ (true ∷ [])) ≡ suc (open_permits bs)
unfolding open_permits
open_permits-append [] = refl
open_permits-append (true ∷ bs) = omega (arith, open_permits-append bs)
open_permits-append (false ∷ bs) = open_permits-append bs

open_permits-set :
    (bs : List Bool) (i : ℕ)
    → get_elem? bs i ≡ some true
    → suc (open_permits (set bs i false)) ≡ open_permits bs
unfolding open_permits
open_permits-set [] i h = cc
open_permits-set (true ∷ bs) zero h = refl
open_permits-set (false ∷ bs) zero h = cc
open_permits-set (true ∷ bs) (suc i) h = omega (arith, open_permits-set bs i h)
open_permits-set (false ∷ bs) (suc i) h = open_permits-set bs i h

-- The counter is the number of permits that are out, and within the bound.
pub record IsWork (w : PasswordWork) : Type 0 where
  pub counted : w.current ≡ open_permits w.permits
  pub bounded : w.current ≤ w.maximum_concurrent

acquire-IsWork : (w : PasswordWork) → IsWork w → IsWork (try_acquire_password_work w).1
unfolding try_acquire_password_work
acquire-IsWork w v = elim (Bool-cases (leb w.maximum_concurrent w.current)) [
  | inl busy ↦ rw busy (record { counted = v.counted; bounded = v.bounded })
  | inr free ↦ rw free (record {
    counted = omega (arith, v.counted, open_permits-append w.permits);
    bounded = ground arith;
  })
]

release-IsWork : (w : PasswordWork) (i : ℕ) → IsWork w → IsWork (release_work w i)
unfolding release_work
release-IsWork w i v = elim (Option-cases (get_elem? w.permits i)) [
  | inl gone ↦ rw (gone, release_work) v
  | inr (open_still, found) ↦ elim (Bool-cases open_still) [
    | inr done ↦ rw (found, release_work, done) v
    | inl out ↦
        let fewer = open_permits-set w.permits i (rw (← out) found) in
        rw (found, release_work, out)
          (record { counted = omega (arith, fewer, v.counted); bounded = omega (arith, v.bounded) })
  ]
]

step-IsWork : (w : PasswordWork) (c : WorkCall) → IsWork w → IsWork (work_step w c)
unfolding work_step
step-IsWork w acquires v = acquire-IsWork w v
step-IsWork w (releases i) v = release-IsWork w i v

run-IsWork : (w : PasswordWork) (calls : List WorkCall) → IsWork w → IsWork (run_work w calls)
unfolding run_work
run-IsWork w [] v = v
run-IsWork w (c ∷ calls) v = run-IsWork (work_step w c) calls (step-IsWork w c v)

step-maximum :
    (w : PasswordWork) (c : WorkCall) → (work_step w c).maximum_concurrent ≡ w.maximum_concurrent
unfolding work_step try_acquire_password_work release_work
step-maximum w acquires = ground arith
step-maximum w (releases i) = ground arith

run-maximum :
    (w : PasswordWork) (calls : List WorkCall)
    → (run_work w calls).maximum_concurrent ≡ w.maximum_concurrent
unfolding run_work
run-maximum w [] = refl
run-maximum w (c ∷ calls) = omega (arith, run-maximum (work_step w c) calls, step-maximum w c)

-- Whatever the order of acquisitions and releases, repeated releases included, at most the configured
-- number of permits is out, and the counter is their number.
pub run_work_bounded :
    (maximum : ℕ) (calls : List WorkCall)
    → ((run_work (idle maximum) calls).current
        ≡ open_permits (run_work (idle maximum) calls).permits)
      × (open_permits (run_work (idle maximum) calls).permits ≤ maximum)
unfolding open_permits
run_work_bounded maximum calls =
    let v = run-IsWork (idle maximum) calls (record { counted = refl; bounded = omega arith }) in
    (v.counted, omega (arith, v.counted, v.bounded, run-maximum (idle maximum) calls))
