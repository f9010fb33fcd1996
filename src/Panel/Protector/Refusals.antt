-- ===== src/Panel/Protector/Refusals.antt =====
-- auth_protector.go: a login that is refused leaves no attempt in flight behind.
use grok_search_mcp.Base.{
  ◌≡◌, refl, ◌⊎◌, inl, inr, arith, Bool-cases, Option-cases, ℕ, ◌-◌, ◌%◌, String, Option, none,
  some, ltb, eqb, length, get_elem?,
}
use grok_search_mcp.Base.Keys.{string_key}
use grok_search_mcp.Panel.Failures.{
  LoginFailureEntry, abandoned, Reserved, reserved, locked, full, reserve, retry_after,
}
use grok_search_mcp.Panel.Endpoint.{ReservingBucket, fallback_bucket_index_for}
use grok_search_mcp.Panel.Protector.{
  AuthProtector, LoginFailureReservation, LoginAttempt, Answer, cleanup_interval, bucket_entry,
  source_answer, cleanup, complete_failure_reservation, reserve_bucket, reserve_source_failure,
  pair_reservations, granted, delayed, by_source,
}
use grok_search_mcp.Panel.Failures.Balance.{
  in_flight, admitted, cleanup-in_flight, reserve-in_flight, attempt_balance,
}
use grok_search_mcp.Panel.Protector.Admission.{
  reserve_username_bucket, username_answer, reserve_username_failure, after_source,
  begin_login_attempt, login_failure_key,
}
use grok_search_mcp.Panel.Protector.Validity.{IsValid, cleanup-IsValid}

source_answer-delayed :
    (key : String) (o : Reserved) (d : ℕ) → source_answer key o ≡ delayed d → admitted o ≡ 0
unfolding source_answer
source_answer-delayed key (reserved id) d h = cc
source_answer-delayed key (locked w) d h = refl
source_answer-delayed key full d h = refl

source_answer-granted :
    (key : String) (o : Reserved) (s : LoginFailureReservation)
    → source_answer key o ≡ granted s
    → (id : ℕ) × (o ≡ reserved id) × (s ≡ by_source key id)
unfolding source_answer
source_answer-granted key (reserved id) s h = (id, refl, cc)
source_answer-granted key (locked w) s h = cc
source_answer-granted key full s h = cc

module _ {B : Type 0} where
  -- As many attempts in flight in both registries.
  abbrev pub SameFlights : AuthProtector B → AuthProtector B → Type 0
  SameFlights p q =
      (in_flight q.failures.entries ≡ in_flight p.failures.entries)
      × (in_flight q.username_failures.entries ≡ in_flight p.username_failures.entries)

  cleanup-SameFlights : (p : AuthProtector B) (now : ℕ) → SameFlights p (cleanup p now)
  unfolding cleanup
  cleanup-SameFlights p now = elim (Bool-cases (ltb (now - p.last_cleanup) cleanup_interval)) [
    | inl recent ↦ rw recent (refl, refl)
    | inr due ↦ rw due (
      cleanup-in_flight p.policy p.failures now,
      cleanup-in_flight p.policy p.username_failures now,
    )
  ]

  -- What the user name's part of a reservation leaves as it is.
  pub record Spares (p q : AuthProtector B) : Type 0 where
    pub failures : q.failures ≡ p.failures
    pub policy : q.policy ≡ p.policy
    pub usernames : q.username_failures ≡ p.username_failures

  reserve_bucket-Spares :
      (p : AuthProtector B) (index : ℕ) (e : LoginFailureEntry) (now : ℕ)
      → Spares p (reserve_bucket p index e now).1
  unfolding reserve_bucket
  reserve_bucket-Spares p index e now = elim (Bool-cases (ltb 0 (retry_after p.policy e now))) [
    | inl wait ↦ rw wait (record { failures = refl; policy = refl; usernames = refl })
    | inr free ↦ rw free (record { failures = refl; policy = refl; usernames = refl })
  ]

module _ (t : ReservingBucket) (normalize : String → String) (hash : String → ℕ) where
  open t use {Bucket}

  bucket-Spares :
      (p q : AuthProtector Bucket) (username : String) (now : ℕ)
      (a : Answer LoginFailureReservation)
      → reserve_username_bucket t normalize hash p username now ≡ some (a, q)
      → Spares p q
  unfolding reserve_username_bucket fallback_bucket_index_for
  bucket-Spares p q username now a h =
      let n = length p.username_failure_fallbacks in
      let index = hash username % n in
      elim (Bool-cases (eqb n 0)) [
        | inl zero_buckets ↦
            let wrong : ◌≡◌ {A = Option (Answer LoginFailureReservation × AuthProtector Bucket)}
                none (some (a, q)) =
              rw zero_buckets at h in
            cc
        | inr some_buckets ↦ elim (Option-cases (get_elem? p.username_failure_fallbacks index)) [
          | inl gone ↦
              let wrong : ◌≡◌ {A = Option (Answer LoginFailureReservation × AuthProtector Bucket)}
                  none (some (a, q)) =
                rw (some_buckets, gone) at h in
              cc
          | inr (b, found) ↦
              let same : some (reserve_bucket p index (bucket_entry index b) now) ≡ some (a, q) =
                rw (some_buckets, found) at h in
              let end : (reserve_bucket p index (bucket_entry index b) now).1 ≡ q = cc in
              rw end at (reserve_bucket-Spares p index (bucket_entry index b) now)
        ]
      ]

  username_answer-Spares :
      (o : Reserved) (p q : AuthProtector Bucket) (username : String) (now : ℕ)
      (a : Answer LoginFailureReservation)
      → username_answer t normalize hash o p username now ≡ some (a, q)
      → Spares p q
  unfolding username_answer
  username_answer-Spares (reserved id) p q username now a h =
      let same : p ≡ q = cc in
      rw (← same) (record { failures = refl; policy = refl; usernames = refl })
  username_answer-Spares (locked d) p q username now a h =
      let same : p ≡ q = cc in
      rw (← same) (record { failures = refl; policy = refl; usernames = refl })
  username_answer-Spares full p q username now a h = bucket-Spares p q username now a h

  username_answer-admits :
      (o : Reserved) (p q : AuthProtector Bucket) (username : String) (now d : ℕ)
      → username_answer t normalize hash o p username now ≡ some (delayed d, q)
      → admitted o ≡ 0
  unfolding username_answer
  username_answer-admits (reserved id) p q username now d h = cc
  username_answer-admits (locked w) p q username now d h = refl
  username_answer-admits full p q username now d h = refl

  -- A user name that is refused.
  username_refused :
      (p q : AuthProtector Bucket) (username : String) (now d : ℕ)
      → reserve_username_failure t normalize hash p username now ≡ some (delayed d, q)
      → (q.failures ≡ p.failures)
        × (q.policy ≡ p.policy)
        × (in_flight q.username_failures.entries ≡ in_flight p.username_failures.entries)
  unfolding reserve_username_failure
  username_refused p q username now d h =
      let o = (reserve p.policy p.username_failures username now).0 in
      let p' : AuthProtector Bucket = record p {
        username_failures = (reserve p.policy p.username_failures username now).1;
      } in
      let s = username_answer-Spares o p' q username now (delayed d) h in
      let none_added = username_answer-admits o p' q username now d h in
      let count = reserve-in_flight p.policy p.username_failures username now in
      (s.failures, s.policy, rw (s.usernames, count, none_added) (omega arith))

  -- How the start of a login is refused: by its source, or by its user name, which gives the source's
  -- reservation back.
  after_source-delayed :
      (answer : Answer LoginFailureReservation) (p q : AuthProtector Bucket) (username : String)
      (now d : ℕ)
      → after_source t normalize hash (answer, p) username now ≡ some (delayed d, q)
      → ((e : ℕ) × (answer ≡ delayed e) × (q ≡ p))
        ⊎ ((s : LoginFailureReservation) × (p' : AuthProtector Bucket) × (e : ℕ) × (answer
              ≡ granted s)
            × (reserve_username_failure t normalize hash p (normalize username) now
                ≡ some (delayed e, p'))
            × (q ≡ complete_failure_reservation p' s abandoned now))
  unfolding after_source pair_reservations
  after_source-delayed (delayed e) p q username now d h = inl (e, refl, cc)
  after_source-delayed (granted s) p q username now d h =
      elim (Option-cases (reserve_username_failure t normalize hash p (normalize username) now)) [
        | inl panic ↦
            let wrong : ◌≡◌ {A = Option (Answer LoginAttempt × AuthProtector Bucket)} none
                (some (delayed d, q)) =
              rw panic at h in
            cc
        | inr ((granted u, p'), call) ↦
            let pair : Answer LoginAttempt × AuthProtector Bucket =
              pair_reservations s now (granted u, p') in
            let wrong : some pair ≡ some (delayed d, q) = rw call at h in cc
        | inr ((delayed e, p'), call) ↦
            let pair : Answer LoginAttempt × AuthProtector Bucket =
              pair_reservations s now (delayed e, p') in
            let end : some pair ≡ some (delayed d, q) = rw call at h in
            inr (s, p', e, refl, call, cc)
      ]

  -- On a valid protector, where the start of a login is refused, by its source or by its user name,
  -- both registries carry as many attempts in flight as before it.
  pub refused_leaves_nothing :
      (p q : AuthProtector Bucket) (username client_ip : String) (now d : ℕ)
      → IsValid p
      → begin_login_attempt t normalize hash p username client_ip now ≡ some (delayed d, q)
      → SameFlights p q
  unfolding begin_login_attempt reserve_source_failure complete_failure_reservation
  refused_leaves_nothing p q username client_ip now d v h =
      let c = cleanup p now in
      let same = cleanup-SameFlights p now in
      let valid = cleanup-IsValid p now v in
      let key = login_failure_key t normalize hash username client_ip in
      let o = (reserve c.policy c.failures key now).0 in
      let r = (reserve c.policy c.failures key now).1 in
      let p1 : AuthProtector Bucket = record c { failures = r } in
      let taken = reserve-in_flight c.policy c.failures key now in
      elim (after_source-delayed (source_answer key o) p1 q username now d h) [
        | inl (e, answer, end) ↦
            let none_added = source_answer-delayed key o e answer in
            rw end (omega (arith, taken, none_added, same.0), same.1)
        | inr (s, p', e, answer, call, end) ↦
            let (id, is_reserved, named) = source_answer-granted key o s answer in
            let (failures, policy, usernames) =
              username_refused p1 p' (normalize username) now e call in
            let balance =
              attempt_balance c.policy c.failures key id abandoned now now valid.policy
                valid.failures is_reserved in
            rw (end, named, failures, policy)
              (omega (arith, balance, same.0), omega (arith, usernames, same.1))
      ]
