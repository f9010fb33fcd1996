-- ===== src/RateLimit/Search/Tests.antt =====
-- The search concurrency limiter on concrete inputs.
use grok_search_mcp.Base.{ℕ, suc, ◌≡◌, ◌+◌, eqb, arith, refl, some, List, [], ◌∷◌, length}
use grok_search_mcp.Base.Int.{pos}
use grok_search_mcp.Base.Keys.{string_key, nat_key}
use grok_search_mcp.Base.Assoc.{lookup, insert, erase, retain}
use grok_search_mcp.RateLimit.Search.{
  SearchConcurrencyLimiter, fresh_limiter, new_search_concurrency_limiter, update_limits,
  limits_error, try_acquire, entry_for, touch, grant, acquire_for_user, release,
  cleanup_idle_entries,
}
use grok_search_mcp.Base.Count.{one_if}
use grok_search_mcp.RateLimit.Search.Invariant.{Inv, held_by}
use grok_search_mcp.RateLimit.Search.Admission.{permitted, try_acquire_exact}
use grok_search_mcp.RateLimit.Search.Bounds.{IsBounded}
use grok_search_mcp.RateLimit.Search.Histories.{
  UpdateWithin, LimitsWithin, Call, acquires, releases, cleans, sets_limits, run, step,
  run-IsBounded, release_once,
}

abbrev start : SearchConcurrencyLimiter
start = fresh_limiter 2 1

start_made : new_search_concurrency_limiter (pos 2) (pos 1) ≡ some start
unfolding new_search_concurrency_limiter limits_error
start_made = refl

abbrev traffic : List (ℕ × Call)
traffic =
    (10, acquires "ann")
    ∷ (11, acquires "ann")
    ∷ (12, acquires "bob")
    ∷ (13, acquires "eve")
    ∷ (14, releases 0)
    ∷ (15, releases 0)
    ∷ (16, cleans)
    ∷ (17, acquires "eve")
    ∷ []

-- "ann" gets one permit and "bob" the other; "eve" is served once "ann" has given hers back.
traffic_held : length (run start traffic).held ≡ 2
unfolding run step try_acquire entry_for touch acquire_for_user grant release lookup insert erase
    retain cleanup_idle_entries
traffic_held = refl

-- "bob" still holds a permit when the limits go down to one, and no more than the two that were allowed
-- before are ever out.
abbrev narrowing : List (ℕ × Call)
narrowing =
    (10, acquires "ann")
    ∷ (11, acquires "bob")
    ∷ (12, sets_limits (pos 1) (pos 1))
    ∷ (13, acquires "eve")
    ∷ (14, sets_limits (pos 0) (pos 1))
    ∷ []

narrowing-LimitsWithin : LimitsWithin 2 1 narrowing
unfolding LimitsWithin UpdateWithin limits_error
narrowing-LimitsWithin = ((omega arith, omega arith), (tt, tt))

narrowing_held : (length (run start narrowing).held ≡ 2) × ((run start narrowing).global_limit ≡ 1)
unfolding run step try_acquire entry_for touch acquire_for_user grant lookup insert update_limits
    limits_error
narrowing_held = (refl, refl)

run-IsBounded_example : Inv (run start narrowing) × IsBounded 2 1 (run start narrowing)
run-IsBounded_example =
    run-IsBounded 2 1 (pos 2) (pos 1) start narrowing start_made (omega arith) (omega arith)
      narrowing-LimitsWithin

abbrev ann_running : List (ℕ × Call)
ann_running = (10, acquires "ann") ∷ []

ann_running-Inv : Inv (run start ann_running)
unfolding LimitsWithin
ann_running-Inv =
    (run-IsBounded 2 1 (pos 2) (pos 1) start ann_running start_made (omega arith) (omega arith)
      tt).0

try_acquire_exact_example :
    (try_acquire (run start ann_running) "ann" 20).0 ≡ permitted (run start ann_running) "ann"
try_acquire_exact_example = try_acquire_exact (run start ann_running) "ann" 20 ann_running-Inv

release_once_example :
    (suc (release (run start ann_running) 0 30).global_active
      ≡ (run start ann_running).global_active)
    × (one_if (eqb 0 0) + ((release (run start ann_running) 0 30).heap 0).active
        ≡ ((run start ann_running).heap 0).active)
    × ((release (run start ann_running) 0 30).global_active
        ≡ length (release (run start ann_running) 0 30).held)
    × (((release (run start ann_running) 0 30).heap 0).active
        ≡ held_by (release (run start ann_running) 0 30) "ann")
    × (release (release (run start ann_running) 0 30) 0 31 ≡ release (run start ann_running) 0 30)
unfolding run step try_acquire entry_for touch acquire_for_user grant lookup insert
release_once_example =
    release_once (run start ann_running) 0 30 31 (record { user_id = "ann"; entry = 0 }) 0
      ann_running-Inv refl
