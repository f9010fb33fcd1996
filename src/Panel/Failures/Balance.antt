-- ===== src/Panel/Failures/Balance.antt =====
-- auth_protector.go: the attempts in flight that a registry of failed logins carries.
use grok_search_mcp.Base.{
  ℕ, ◌+◌, ◌-◌, ◌<◌, ◌≡◌, refl, inl, inr, String, false, not, ◌||◌, none, some, List, [], ◌∷◌, arith,
  ltb, leb, eqb, length, Bool-cases, Option-cases,
}
use grok_search_mcp.Base.Keys.{◌==◌, string_key}
use grok_search_mcp.Base.Assoc.{
  lookup, insert, erase, retain, Unique, erase-none, lookup-insert_self,
}
use grok_search_mcp.Panel.Failures.{
  LoginFailureEntry, Policy, Registry, LoginAttemptOutcome, abandoned, failed, succeeded, stays,
  cleanup_failures, make_room, reserve_new, reserve, retry_after, Reserved, reserved, locked, full,
  with_attempt, first_attempt, settle, count_failure, store_settled, complete,
  record_failure_expiry,
}
use grok_search_mcp.Panel.Failures.Lockout.{IsPolicy}
use grok_search_mcp.Panel.Failures.Invariant.{IsValid, make_room-absent}
use grok_search_mcp.Panel.Failures.Preservation.{reserve-IsValid}

unfoldable pub in_flight : List (String × LoginFailureEntry) → ℕ
in_flight [] = 0
in_flight ((k, e) ∷ m) = e.in_flight_attempts + in_flight m

in_flight-insert_new :
    (key : String) (e : LoginFailureEntry) (m : List (String × LoginFailureEntry))
    → lookup key m ≡ none
    → in_flight (insert key e m) ≡ in_flight m + e.in_flight_attempts
unfolding in_flight insert lookup
in_flight-insert_new key e [] h = omega arith
in_flight-insert_new key e ((other, w) ∷ m) h = elim (Bool-cases (other == key)) [
  | inl hit ↦ let wrong : some w ≡ none = rw hit at h in cc
  | inr miss ↦ rw miss (omega (arith, in_flight-insert_new key e m (rw miss at h)))
]

in_flight-insert_old :
    (key : String) (e w : LoginFailureEntry) (m : List (String × LoginFailureEntry))
    → lookup key m ≡ some w
    → in_flight (insert key e m) + w.in_flight_attempts ≡ in_flight m + e.in_flight_attempts
unfolding in_flight insert lookup
in_flight-insert_old key e w [] h = cc
in_flight-insert_old key e w ((other, x) ∷ m) h = elim (Bool-cases (other == key)) [
  | inl hit ↦
      let wrong : some x ≡ some w = rw hit at h in
      let same : x ≡ w = cc in rw (hit, same) (omega arith)
  | inr miss ↦ rw miss (omega (arith, in_flight-insert_old key e w m (rw miss at h)))
]

in_flight-erase :
    (key : String) (w : LoginFailureEntry) (m : List (String × LoginFailureEntry))
    → Unique m
    → lookup key m ≡ some w
    → in_flight (erase key m) + w.in_flight_attempts ≡ in_flight m
unfolding in_flight erase lookup
in_flight-erase key w [] u h = cc
in_flight-erase key w ((other, x) ∷ m) u h = elim (Bool-cases (other == key)) [
  | inl hit ↦
      let named : other ≡ key = (string_key.equal_iff other key).0 hit in
      let gone : lookup key m ≡ none = rw (← named) u.0 in
      let wrong : some x ≡ some w = rw hit at h in
      let same : x ≡ w = cc in rw (hit, erase-none key m gone, same) (omega arith)
  | inr miss ↦ rw miss (omega (arith, in_flight-erase key w m u.1 (rw miss at h)))
]

in_flight-retain :
    (p : Policy) (now : ℕ) (m : List (String × LoginFailureEntry))
    → in_flight (retain (stays p now) m) ≡ in_flight m
unfolding in_flight retain stays
in_flight-retain p now [] = refl
in_flight-retain p now ((k, e) ∷ m) = ground (arith, in_flight-retain p now m)

pub cleanup-in_flight :
    (p : Policy) (r : Registry) (now : ℕ)
    → in_flight (cleanup_failures p r now).entries ≡ in_flight r.entries
unfolding cleanup_failures
cleanup-in_flight p r now = in_flight-retain p now r.entries

make_room-in_flight :
    (p : Policy) (r : Registry) (now : ℕ)
    → in_flight (make_room p r now).entries ≡ in_flight r.entries
unfolding make_room
make_room-in_flight p r now = ground (arith, cleanup-in_flight p r now)

-- The attempts that an answer adds.
abbrev pub admitted : Reserved → ℕ
admitted (reserved id) = 1
admitted (locked d) = 0
admitted full = 0

reserve_new-in_flight :
    (r : Registry) (key : String)
    → lookup key r.entries ≡ none
    → in_flight (reserve_new r key).1.entries ≡ in_flight r.entries + admitted (reserve_new r key).0
unfolding reserve_new
reserve_new-in_flight r key absent =
    let more = in_flight-insert_new key (first_attempt r.next_id) r.entries absent in
    elim (Bool-cases (leb r.maximum_entries (length r.entries))) [
      | inl fills ↦ rw fills (omega arith)
      | inr room ↦ rw room more
    ]

pub reserve-in_flight :
    (p : Policy) (r : Registry) (key : String) (now : ℕ)
    → in_flight (reserve p r key now).1.entries
      ≡ in_flight r.entries + admitted (reserve p r key now).0
unfolding reserve
reserve-in_flight p r key now = elim (Option-cases (lookup key r.entries)) [
  | inl absent ↦
      let room = make_room p r now in
      let new = reserve_new-in_flight room key (make_room-absent p r key now absent) in
      rw (absent, reserve) (omega (arith, new, make_room-in_flight p r now))
  | inr (e, found) ↦ elim (Bool-cases (ltb 0 (retry_after p e now))) [
    | inl wait ↦ rw (found, reserve, wait) (omega arith)
    | inr free ↦
        rw (found, reserve, free)
          (omega (arith, in_flight-insert_old key (with_attempt e) e r.entries found))
  ]
]

-- The entry that a reservation names is in the registry, with an attempt in flight.
abbrev pub Holds : Registry → String → ℕ → Type 0
Holds r key id =
    (e : LoginFailureEntry) × (lookup key r.entries ≡ some e)
    × (e.id ≡ id)
    × (0 < e.in_flight_attempts)

reserve_new-Holds :
    (r : Registry) (key : String) (id : ℕ)
    → (reserve_new r key).0 ≡ reserved id
    → Holds (reserve_new r key).1 key id
unfolding reserve_new
reserve_new-Holds r key id h = elim (Bool-cases (leb r.maximum_entries (length r.entries))) [
  | inl fills ↦ let wrong : full ≡ reserved id = rw fills at h in cc
  | inr room ↦
      let same : reserved r.next_id ≡ reserved id = rw room at h in
      rw room (
        first_attempt r.next_id,
        lookup-insert_self key (first_attempt r.next_id) r.entries,
        cc,
        omega arith,
      )
]

pub reserve-Holds :
    (p : Policy) (r : Registry) (key : String) (id now : ℕ)
    → (reserve p r key now).0 ≡ reserved id
    → Holds (reserve p r key now).1 key id
unfolding reserve
reserve-Holds p r key id now h = elim (Option-cases (lookup key r.entries)) [
  | inl absent ↦
      rw (absent, reserve)
        (reserve_new-Holds (make_room p r now) key id (rw (absent, reserve) at h))
  | inr (e, found) ↦ elim (Bool-cases (ltb 0 (retry_after p e now))) [
    | inl wait ↦
        let wrong : locked (retry_after p e now) ≡ reserved id = rw (found, reserve, wait) at h in
        cc
    | inr free ↦
        let same : reserved e.id ≡ reserved id = rw (found, reserve, free) at h in
        rw (found, reserve, free)
          (with_attempt e, lookup-insert_self key (with_attempt e) r.entries, cc, omega arith)
  ]
]

settle-in_flight :
    (p : Policy) (e : LoginFailureEntry) (o : LoginAttemptOutcome) (now : ℕ)
    → (settle p e o now).in_flight_attempts ≡ e.in_flight_attempts - 1
unfolding settle count_failure
settle-in_flight p e abandoned now = refl
settle-in_flight p e failed now = refl
settle-in_flight p e succeeded now = refl

store_settled-in_flight :
    (p : Policy) (r : Registry) (key : String) (old e : LoginFailureEntry) (now : ℕ)
    → Unique r.entries
    → lookup key r.entries ≡ some old
    → in_flight (store_settled p r key e now).entries + old.in_flight_attempts
      ≡ in_flight r.entries + e.in_flight_attempts
unfolding store_settled record_failure_expiry
store_settled-in_flight p r key old e now u found = ground (
  arith,
  in_flight-erase key old r.entries u found,
  in_flight-insert_old key e old r.entries found,
)

pub complete-in_flight :
    (p : Policy) (r : Registry) (key : String) (id : ℕ) (o : LoginAttemptOutcome) (now : ℕ)
    → Unique r.entries
    → Holds r key id
    → in_flight (complete p r key id o now).entries + 1 ≡ in_flight r.entries
unfolding complete
complete-in_flight p r key id o now u (e, found, named, flying) =
    let current : (not (eqb e.id id) || eqb e.in_flight_attempts 0) ≡ false = ground arith in
    let stored = store_settled-in_flight p r key e (settle p e o now) now u found in
    rw (found, complete, current) (omega (arith, stored, settle-in_flight p e o now, flying))

-- With a valid policy and on a valid registry, an attempt that is admitted and then completed, with
-- whatever outcome, leaves as many attempts in flight as there were before it.
pub attempt_balance :
    (p : Policy) (r : Registry) (key : String) (id : ℕ) (o : LoginAttemptOutcome) (now later : ℕ)
    → IsPolicy p
    → IsValid p r
    → (reserve p r key now).0 ≡ reserved id
    → in_flight (complete p (reserve p r key now).1 key id o later).entries ≡ in_flight r.entries
attempt_balance p r key id o now later q v h =
    let one : admitted (reserve p r key now).0 ≡ 1 = rw h refl in
    let taken = reserve-in_flight p r key now in
    let given =
      complete-in_flight p (reserve p r key now).1 key id o later
        (reserve-IsValid p r key now q v).unique (reserve-Holds p r key id now h) in
    omega (arith, one, taken, given)
