-- ===== src/Profiles/Examples.antt =====
-- A provisioner whose first request is answered by 503 and whose second one succeeds.
use andruha_identity_service.Prelude.{
  ℕ, ◌≡◌, refl, true, false, none, [], ◌∷◌, arith, ltb, ◌==◌, if◌then◌else◌,
}
use andruha_identity_service.Errors.{ok}
use andruha_identity_service.Breaker.{Breaker, closed}
use andruha_identity_service.Profiles.{World, Reply, response, Line, create_profile}
use andruha_identity_service.Profiles.Answers.{Answered, create_profile-Answered}

abbrev answer : ℕ → Reply
answer n = if n == 0 then response 503 none else response 204 none

abbrev world : World
world = record { reply = answer; begun = λ n. n; ended = λ n. n; others = λ n b. b }

abbrev breaker : Breaker
breaker = record {
  fail_max = 5;
  recovery_timeout = 30;
  state = closed;
  failure_count = 0;
  opened_at = none;
  probe_in_progress = false;
  probe_token = none;
  generation = 0;
  next_token = 0;
}

abbrev line : Line ℕ
line = record { breaker = breaker; sent = 0; slept = [] }

succeeds_second :
    ((create_profile ltb 0 (λ text. none) world 10 50 true line).0 ≡ ok tt)
    × ((create_profile ltb 0 (λ text. none) world 10 50 true line).1.sent ≡ 2)
    × ((create_profile ltb 0 (λ text. none) world 10 50 true line).1.slept ≡ 10 ∷ [])
unfolding create_profile
succeeds_second = (refl, refl, refl)

ltb-self : (x : ℕ) → ltb x x ≡ false
ltb-self x = ground arith

ltb-flip : (x y : ℕ) → ltb x y ≡ true → ltb y x ≡ false
ltb-flip x y h = ground arith

create_profile-Answered_example :
    Answered ltb 0
      (λ text. none)
      world
      10
      50
      ltb-self
      ltb-flip
      refl
      0
      []
      (create_profile ltb 0 (λ text. none) world 10 50 true line).0
      (create_profile ltb 0 (λ text. none) world 10 50 true line).1
create_profile-Answered_example =
    create_profile-Answered ltb 0 (λ text. none) world 10 50 ltb-self ltb-flip refl line
