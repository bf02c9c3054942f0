-- ===== src/SystemdHelper/Monitor/Limits.antt =====
-- What the monitor of internal/systemdhelper/monitor.go guarantees of the restarts.
use pi_ops_agent.Base.{
  ℕ, ℤ, pos, negsuc, suc, ◌+◌, ltb, Bool, if◌then◌else◌, ◌≤◌, ◌≡◌, refl, sym, ap, ◌∙◌, true, false,
  List, [], ◌∷◌, ◌++◌, Option, none, some, arith, length, length-append, lebℤ, ltbℤ, sub_ℕ,
  pos_part, Bool-cases, inl, inr, if-both,
}
use pi_ops_agent.SystemdHelper.Monitor.{
  Config, State, idle, heartbeat, check, keep_recent, in_window, restart_or_not, cooling, quiet,
}
use pi_ops_agent.SystemdHelper.Monitor.Runs.{
  Step, beat, tick, time_of, IsOrdered, last_time, noted, step, run, new_monitor,
}

-- The window of a length that ends now begins after `now - w`; a negative length sets it ahead.
abbrev pub is_within : ℤ → ℕ → ℕ → Bool
is_within (pos w) now t = ltb now (t + w)
is_within (negsuc w) now t = ltb (now + suc w) t

-- How many of the times stand in the window.
abbrev pub count_within : ℤ → ℕ → List ℕ → ℕ
count_within w now [] = 0
count_within w now (t ∷ ts) =
    let rest = count_within w now ts in if is_within w now t then suc rest else rest

is_within-ltbℤ : (w : ℤ) (now t : ℕ) → ltbℤ (sub_ℕ now t) w ≡ is_within w now t
is_within-ltbℤ (pos w) now t = ground arith
is_within-ltbℤ (negsuc w) now t = ground arith

module _ (c : Config) where
  in_window-is_within : (now t : ℕ) → in_window c now t ≡ is_within c.restart_window now t
  unfolding in_window
  in_window-is_within now t = is_within-ltbℤ c.restart_window now t

  pub keep_recent-count_within :
      (now : ℕ) (ts : List ℕ) → length (keep_recent c now ts) ≡ count_within c.restart_window now ts
  unfolding keep_recent
  keep_recent-count_within now [] = refl
  keep_recent-count_within now (t ∷ ts) =
      ground (arith, keep_recent-count_within now ts, in_window-is_within now t)

  -- Each restart is at least the cooldown after the one before it.
  abbrev pub IsApart : List ℕ → Type 0
  IsApart [] = Unit
  IsApart (t ∷ []) = Unit
  IsApart (t ∷ u ∷ ts) = (ltbℤ (sub_ℕ t u) c.restart_cooldown ≡ false) × IsApart (u ∷ ts)

  abbrev newest : List ℕ → Option ℕ
  newest [] = none
  newest (t ∷ ts) = some t

  record Spaced (s : List ℕ × State) : Type 0 where
    apart : IsApart s.0
    last : s.1.last_restart ≡ newest s.0

  restart_or_not-Spaced :
      (t : ℕ) (rs : List ℕ) (m : State)
      → cooling c t m.last_restart ≡ false
      → Spaced (rs, m)
      → Spaced (noted c t rs (restart_or_not c t m))
  unfolding restart_or_not cooling
  restart_or_not-Spaced t [] m rested s = ground arith
  restart_or_not-Spaced t (u ∷ rs) m rested s =
      let gap : ltbℤ (sub_ℕ t u) c.restart_cooldown ≡ false = rw s.last at rested in
      elim (Bool-cases (lebℤ c.max_restarts (pos (length m.restarts)))) [
        | inl full ↦ rw full s
        | inr room ↦ rw room (record { apart = (gap, s.apart); last = refl })
      ]

  rested : (t : ℕ) (m : State) → quiet c t m ≡ false → cooling c t m.last_restart ≡ false
  unfolding quiet
  rested t m late = ground arith

  abbrev recent : ℕ → State → State
  recent t m = record m { restarts = keep_recent c t m.restarts }

  step-Spaced : (x : Step) (s : List ℕ × State) → Spaced s → Spaced (step c x s)
  unfolding step heartbeat check
  step-Spaced (beat t) (rs, m) s = ground arith
  step-Spaced (tick t) (rs, m) s =
      if-both (λ r. Spaced (noted c t rs r)) (quiet c t m) (idle, m)
        (restart_or_not c t (recent t m)) (λ still. s)
        (λ late.
          restart_or_not-Spaced t rs (recent t m) (rested t m late)
            (record { apart = s.apart; last = s.last }))

  run-Spaced : (steps : List Step) (s : List ℕ × State) → Spaced s → Spaced (run c steps s)
  unfolding run
  run-Spaced [] s h = h
  run-Spaced (x ∷ steps) s h = run-Spaced steps (step c x s) (step-Spaced x s h)

  keep_recent-length : (t : ℕ) (ts : List ℕ) → length (keep_recent c t ts) ≤ length ts
  unfolding keep_recent
  keep_recent-length t [] = omega arith
  keep_recent-length t (u ∷ ts) = ground (arith, keep_recent-length t ts)

  keep_recent-append :
      (t u : ℕ) (ts : List ℕ)
      → length (keep_recent c t (ts ++ u ∷ [])) ≡ length (keep_recent c t (u ∷ ts))
  unfolding keep_recent
  keep_recent-append t u [] = refl
  keep_recent-append t u (v ∷ ts) = ground (arith, keep_recent-append t u ts)

  keep_recent-cons :
      (now t : ℕ) (rs ts : List ℕ)
      → length (keep_recent c now rs) ≡ length (keep_recent c now ts)
      → length (keep_recent c now (t ∷ rs)) ≡ length (keep_recent c now (t ∷ ts))
  unfolding keep_recent
  keep_recent-cons now t rs ts e = ground arith

  in_window-later : (t now u : ℕ) → t ≤ now → in_window c now u ≡ true → in_window c t u ≡ true
  unfolding in_window
  in_window-later t now u h k = ground arith

  keep_recent-later :
      (t now : ℕ) (ts : List ℕ)
      → t ≤ now
      → keep_recent c now (keep_recent c t ts) ≡ keep_recent c now ts
  unfolding keep_recent
  keep_recent-later t now [] h = refl
  keep_recent-later t now (u ∷ ts) h =
      ground (arith, keep_recent-later t now ts h, in_window-later t now u h)

  -- The history and the state's own list agree on what a later check counts, and the list is
  -- within the limit.
  record Limited (t : ℕ) (s : List ℕ × State) : Type 0 where
    same :
        (now : ℕ)
        → t ≤ now
        → length (keep_recent c now s.0) ≡ length (keep_recent c now s.1.restarts)
    few : length s.1.restarts ≤ pos_part c.max_restarts

  recent-Limited :
      (before t : ℕ) (rs : List ℕ) (m : State)
      → before ≤ t
      → Limited before (rs, m)
      → Limited t (rs, recent t m)
  recent-Limited before t rs m h s = record {
    same = λ now later.
        s.same now (omega (arith, h, later))
        ∙ ap length (sym (keep_recent-later t now m.restarts later));
    few = omega (arith, keep_recent-length t m.restarts, s.few);
  }

  restart_or_not-Limited :
      (t : ℕ) (rs : List ℕ) (m : State)
      → Limited t (rs, m)
      → Limited t (noted c t rs (restart_or_not c t m))
  unfolding restart_or_not
  restart_or_not-Limited t rs m s =
      elim (Bool-cases (lebℤ c.max_restarts (pos (length m.restarts)))) [
        | inl full ↦ rw full s
        | inr room ↦ rw room (record {
          same = λ now later.
              keep_recent-cons now t rs m.restarts (s.same now later)
              ∙ sym (keep_recent-append now t m.restarts);
          few = ground (arith, length-append m.restarts (t ∷ []));
        })
      ]

  step-Limited :
      (before : ℕ) (x : Step) (s : List ℕ × State)
      → before ≤ time_of x
      → Limited before s
      → Limited (time_of x) (step c x s)
  unfolding step heartbeat check
  step-Limited before (beat t) (rs, m) h s = record {
    same = λ now later. ground (arith, s.same now (omega (arith, h, later)));
    few = ground (arith, s.few);
  }
  step-Limited before (tick t) (rs, m) h s =
      if-both (λ r. Limited t (noted c t rs r)) (quiet c t m) (idle, m)
        (restart_or_not c t (recent t m))
        (λ still. record { same = λ now later. s.same now (omega (arith, h, later)); few = s.few })
        (λ late. restart_or_not-Limited t rs (recent t m) (recent-Limited before t rs m h s))

  run-Limited :
      (before : ℕ) (steps : List Step) (s : List ℕ × State)
      → IsOrdered before steps
      → Limited before s
      → Limited (last_time before steps) (run c steps s)
  unfolding run
  run-Limited before [] s h l = l
  run-Limited before (x ∷ steps) s (h, hs) l =
      run-Limited (time_of x) steps (step c x s) hs (step-Limited before x s h l)

  -- Whatever heartbeats and checks come, two restarts one after the other are at least the
  -- cooldown apart.
  pub restarts-IsApart :
      (start : ℕ) (steps : List Step) → IsApart (run c steps (new_monitor c start)).0
  restarts-IsApart start steps =
      (run-Spaced steps (new_monitor c start) (record { apart = tt; last = refl })).apart

  -- While the clock does not go back, at or after the last step at most `MaxRestarts` restarts
  -- were made later than `RestartWindow` ago, and none if that is negative.
  pub restarts_limited :
      (start now : ℕ) (steps : List Step)
      → IsOrdered start steps
      → last_time start steps ≤ now
      → count_within c.restart_window now (run c steps (new_monitor c start)).0
        ≤ pos_part c.max_restarts
  restarts_limited start now steps ordered later =
      let l =
        run-Limited start steps (new_monitor c start) ordered
          (record { same = λ now later. refl; few = omega arith }) in
      omega (
        arith,
        keep_recent-count_within now (run c steps (new_monitor c start)).0,
        l.same now later,
        l.few,
        keep_recent-length now (run c steps (new_monitor c start)).1.restarts,
      )
