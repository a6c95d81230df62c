-- ===== src/Config/CtrlLoader/Run/Rotation.antt =====
-- Which services config/config-loader/ctrl-loader.go asks, and that Run does not end while they
-- fail.
use ecommerce_gateway.Common.{
  ℕ, zero, suc, ◌+◌, ◌-◌, ◌%◌, ◌≤◌, ◌<◌, ◌≡◌, ◌∙◌, ap, sym, refl, arith, false, Option, some, inl,
  inr, List, [], ◌∷◌, ◌++◌, Text, length, get_elem?, All, leb, Bool-cases, leb→le,
}
use mathlib.Core.Path.{subst}
use native.Mathlib.Nat.{mod-lt, mod-eq_of_lt, mod-add-mod, add-mod_left}
use ecommerce_gateway.Loader.Files.{Files}
use ecommerce_gateway.Config.CtrlLoader.{
  CtrlConfigLoader, Reply, LoadError, LoadIo, next_index, chose_ctrl_service,
}
use ecommerce_gateway.Config.CtrlLoader.Run.{
  fetched, Result, ask_next, write_config, ask_service, load_config, Round, Progress, run_loop,
  run_round, advance,
}

-- No service answers.
abbrev pub Silent : LoadIo → Type 0
Silent io = (s : Text) → (e : Text) × (io.ask s ≡ Reply.no_reply e)

-- The loader behind a load that fails at the service it chose.
abbrev pub failed_at : CtrlConfigLoader → CtrlConfigLoader
failed_at c = ask_next (chose_ctrl_service c).1

ask_service-Silent :
    (io : LoadIo) (service : Text) (c : CtrlConfigLoader) (files : Files) (reply : Reply)
    → ((e : Text) × (reply ≡ Reply.no_reply e))
    → (e : LoadError) × (write_config io c files (fetched io reply)
        ≡ Result.returned (some e) (ask_next c) files)
unfolding write_config fetched
ask_service-Silent io service c files reply (e, silent) = (
  LoadError.request_failed e,
  subst
      (λ r.
        write_config io c files (fetched io r)
        ≡ Result.returned (some (LoadError.request_failed e)) (ask_next c) files)
      (sym silent) refl,
)

load_config-Silent :
    (io : LoadIo) (c : CtrlConfigLoader) (files : Files) (service : Text)
    → Silent io
    → (chose_ctrl_service c).0 ≡ some service
    → (e : LoadError) × (load_config io c files ≡ Result.returned (some e) (failed_at c) files)
unfolding load_config ask_service
load_config-Silent io c files service silent chosen =
    let (e, same) =
      ask_service-Silent io service (chose_ctrl_service c).1 files (io.ask service)
        (silent service) in
    (e, ap (λ o. ask_service io o (chose_ctrl_service c).1 files) chosen ∙ same)

-- The service that the next round asks.
abbrev pub asked_by : Progress → List (Option Text)
asked_by (Progress.running c files) = (chose_ctrl_service c).0 ∷ []
asked_by other = []

-- The services that the rounds of Run ask.
unfoldable pub asked : List Round → Progress → List (Option Text)
unfolding chose_ctrl_service run_round
asked [] p = []
asked (r ∷ rounds) p = asked_by p ++ asked rounds (run_round r p)

next_index-failed :
    (c : CtrlConfigLoader) → next_index (failed_at c) ≡ (next_index c + 1) % length c.ctrl_service
unfolding next_index chose_ctrl_service
next_index-failed c = refl

failed-services : (c : CtrlConfigLoader) → (failed_at c).ctrl_service ≡ c.ctrl_service
unfolding chose_ctrl_service
failed-services c = refl

plus_zero : (i : ℕ) → i + 0 ≡ i
plus_zero i = omega arith

same_place : (i n : ℕ) → i < n → i ≡ (i + 0) % n
same_place i n h = sym (ap (λ j. j % n) (plus_zero i) ∙ mod-eq_of_lt h)

next_inside :
    (c : CtrlConfigLoader)
    → next_index c < length c.ctrl_service
    → next_index (failed_at c) < length c.ctrl_service
next_inside c inside =
    subst (λ j. j < length c.ctrl_service) (sym (next_index-failed c))
      (mod-lt (next_index c + 1) (omega (arith, inside)))

one_more : (i k : ℕ) → i + 1 + k ≡ i + suc k
one_more i k = omega arith

next_place :
    (c : CtrlConfigLoader) (k : ℕ)
    → (next_index (failed_at c) + k) % length c.ctrl_service
      ≡ (next_index c + suc k) % length c.ctrl_service
next_place c k =
    ap (λ j. (j + k) % length c.ctrl_service) (next_index-failed c)
    ∙ mod-add-mod (next_index c + 1) (length c.ctrl_service) k
    ∙ ap (λ j. j % length c.ctrl_service) (one_more (next_index c) k)

forward : (start i : ℕ) → start ≤ i → start + (i - start) ≡ i
forward start i le = omega (arith, le)

around : (start i n : ℕ) → start < n → start + (n - start + i) ≡ n + i
around start i n hs = omega (arith, hs)

place_below : (start i : ℕ) → leb start i ≡ false → i < start
place_below start i h = ground arith

-- How many turns lead from one place of a round to another.
turns : (start i n : ℕ) → start < n → i < n → (k : ℕ) × (k < n) × ((start + k) % n ≡ i)
turns start i n hs hi = elim (Bool-cases (leb start i)) [
  | inl up ↦
      let le = leb→le start i up in
      (i - start, omega (arith, le, hi), ap (λ j. j % n) (forward start i le) ∙ mod-eq_of_lt hi)
  | inr down ↦
      let lt = place_below start i down in
      (
        n - start + i,
        omega (arith, lt, hs),
        ap (λ j. j % n) (around start i n hs) ∙ add-mod_left n i ∙ mod-eq_of_lt hi,
      )
]

run_round-Silent :
    (r : Round) (c : CtrlConfigLoader) (files : Files) (service : Text)
    → Silent r.io
    → (chose_ctrl_service c).0 ≡ some service
    → run_round r (Progress.running c files) ≡ Progress.running (failed_at c) files
unfolding run_round advance
run_round-Silent r c files service silent chosen =
    let (e, same) = load_config-Silent r.io c files service silent chosen in
    ap (advance r.done) same

get_elem?-inside : (xs : List Text) (i : ℕ) → i < length xs → (x : Text) × (get_elem? xs i ≡ some x)
get_elem?-inside [] i h = ground arith
get_elem?-inside (x ∷ xs) zero h = (x, refl)
get_elem?-inside (x ∷ xs) (suc i) h = get_elem?-inside xs i (omega (arith, h))

asked-next :
    (r : Round) (rounds : List Round) (c : CtrlConfigLoader) (files : Files)
    → next_index c < length c.ctrl_service
    → Silent r.io
    → asked (r ∷ rounds) (Progress.running c files)
      ≡ (chose_ctrl_service c).0 ∷ asked rounds (Progress.running (failed_at c) files)
unfolding asked
asked-next r rounds c files inside silent =
    let (service, found) = get_elem?-inside c.ctrl_service (next_index c) inside in
    ap (λ p. (chose_ctrl_service c).0 ∷ asked rounds p)
      (run_round-Silent r c files service silent found)

asked_at :
    (rounds : List Round) (c : CtrlConfigLoader) (files : Files) (k : ℕ)
    → next_index c < length c.ctrl_service
    → All (λ r. Silent r.io) rounds
    → k < length rounds
    → get_elem? (asked rounds (Progress.running c files)) k
      ≡ some (get_elem? c.ctrl_service ((next_index c + k) % length c.ctrl_service))
unfolding chose_ctrl_service
asked_at [] c files k inside silent h = ground arith
asked_at (r ∷ rounds) c files zero inside silent h =
    ap (λ services. get_elem? services 0) (asked-next r rounds c files inside silent.0)
    ∙ ap (λ i. some (get_elem? c.ctrl_service i))
        (same_place (next_index c) (length c.ctrl_service) inside)
asked_at (r ∷ rounds) c files (suc k) inside silent h =
    ap (λ services. get_elem? services (suc k)) (asked-next r rounds c files inside silent.0)
    ∙ asked_at rounds (failed_at c) files k (next_inside c inside) silent.1 (omega (arith, h))
    ∙ ap (λ i. some (get_elem? c.ctrl_service i)) (next_place c k)

-- As long as no service answers, and when the place of the next one lies in the list, each service
-- is asked within as many rounds of Run as there are services, if there are that many rounds.
pub asked_each :
    (rounds : List Round) (c : CtrlConfigLoader) (files : Files) (i : ℕ)
    → next_index c < length c.ctrl_service
    → i < length c.ctrl_service
    → All (λ r. Silent r.io) rounds
    → length c.ctrl_service ≤ length rounds
    → (k : ℕ) × (k < length c.ctrl_service)
      × (get_elem? (asked rounds (Progress.running c files)) k ≡ some (get_elem? c.ctrl_service i))
asked_each rounds c files i inside within silent enough =
    let n = length c.ctrl_service in
    let (k, fits, place) = turns (next_index c) i n inside within in
    (
      k,
      fits,
      asked_at rounds c files k inside silent (omega (arith, fits, enough))
          ∙ ap (λ j. some (get_elem? c.ctrl_service j)) place,
    )

-- While no service answers, and when the place of the next one lies in the list, Run does not end,
-- whether or not its context is done: each round leads to the next one, with the files as they are
-- and with the service to be asked next one place further in the list, from the last one on to the
-- first.
pub run_loop-Silent :
    (rounds : List Round) (c : CtrlConfigLoader) (files : Files)
    → next_index c < length c.ctrl_service
    → All (λ r. Silent r.io) rounds
    → (after : CtrlConfigLoader) × (run_loop rounds (Progress.running c files)
        ≡ Progress.running after files)
      × (after.ctrl_service ≡ c.ctrl_service)
      × (next_index after ≡ (next_index c + length rounds) % length c.ctrl_service)
unfolding run_loop
run_loop-Silent [] c files inside silent =
    (c, refl, refl, same_place (next_index c) (length c.ctrl_service) inside)
run_loop-Silent (r ∷ rounds) c files inside silent =
    let (service, found) = get_elem?-inside c.ctrl_service (next_index c) inside in
    let (after, same, services, place) =
      run_loop-Silent rounds (failed_at c) files (next_inside c inside) silent.1 in
    (
      after,
      ap (run_loop rounds) (run_round-Silent r c files service silent.0 found) ∙ same,
      services,
      place ∙ next_place c (length rounds),
    )
