-- ===== src/Loader/Source/Laws.antt =====
-- What the watch loop and the loads of pkg/loader/source.go promise.
use ecommerce_gateway.Common.{
  ℕ, suc, ◌*◌, ◌^◌, ◌≤◌, ◌≡◌, ◌∙◌, sym, refl, ap, arith, Bool, true, false, not, ◌&&◌, none, some,
  ◌⊎◌, inl, inr, List, [], ◌∷◌, ◌++◌, map, Text, is_empty, ltb, if◌then◌else◌, All, All-append,
  Option-cases,
}
use mathlib.Core.Path.{subst}
use ecommerce_gateway.Loader.Keys.{KeyError, validate_key}
use ecommerce_gateway.Loader.Source.{
  Source, SourceConfig, SourceError, Event, Stream, Emit, watch_loop, watch_min_backoff,
  watch_max_backoff, double_backoff, stream_error, config_for_key, watch,
}

-- The waits that a loop announces lie between the bounds.
abbrev pub Waits : Emit → Type 0
Waits (Emit.delivered e) = Unit
Waits (Emit.stream_ended backoff err) =
    (watch_min_backoff ≤ backoff) × (backoff ≤ watch_max_backoff)

delivered-Waits : (es : List Event) → All Waits (map Emit.delivered es)
delivered-Waits [] = tt
delivered-Waits (e ∷ es) = (tt, delivered-Waits es)

double_backoff-bounds :
    (backoff : ℕ)
    → watch_min_backoff ≤ backoff
    → (watch_min_backoff ≤ double_backoff backoff) × (double_backoff backoff ≤ watch_max_backoff)
unfolding double_backoff
double_backoff-bounds backoff h = ground arith

ended-Waits :
    (backoff : ℕ) (err : Text) (canceled canceled_waiting : Bool) (rest : List Emit)
    → watch_min_backoff ≤ backoff
    → backoff ≤ watch_max_backoff
    → All Waits rest
    → All Waits (
        if canceled
        then []
        else Emit.stream_ended backoff err ∷ (if canceled_waiting then [] else rest))
ended-Waits backoff err true canceled_waiting rest lo hi h = tt
ended-Waits backoff err false true rest lo hi h = ((lo, hi), tt)
ended-Waits backoff err false false rest lo hi h = ((lo, hi), h)

reset_bounds :
    (reset : Bool) (backoff : ℕ)
    → watch_min_backoff ≤ backoff
    → backoff ≤ watch_max_backoff
    → (watch_min_backoff ≤ (if reset then backoff else watch_min_backoff))
      × ((if reset then backoff else watch_min_backoff) ≤ watch_max_backoff)
reset_bounds true backoff lo hi = (lo, hi)
reset_bounds false backoff lo hi = (omega arith, omega arith)

watch_loop-Waits :
    (backoff : ℕ) (streams : List Stream)
    → watch_min_backoff ≤ backoff
    → backoff ≤ watch_max_backoff
    → All Waits (watch_loop backoff streams)
unfolding watch_loop
watch_loop-Waits backoff [] lo hi = tt
watch_loop-Waits backoff (s ∷ streams) lo hi =
    let after = if is_empty s.events then backoff else watch_min_backoff in
    let (low, high) = reset_bounds (is_empty s.events) backoff lo hi in
    let (lower, upper) = double_backoff-bounds after low in
    All-append Waits (map Emit.delivered s.events) _ (delivered-Waits s.events) (
      ended-Waits after (stream_error s.ended) s.canceled s.canceled_waiting _ low high
        (watch_loop-Waits (double_backoff after) streams lower upper))

-- A stream that ends without an event, before the context is done.
abbrev pub is_quiet : Stream → Bool
is_quiet s = is_empty s.events && not s.canceled && not s.canceled_waiting

-- The wait behind `k` streams in a row that brought nothing.
abbrev pub wait_at : ℕ → ℕ
wait_at k =
    if ltb watch_max_backoff (watch_min_backoff * 2 ^ k)
    then watch_max_backoff
    else watch_min_backoff * 2 ^ k

abbrev pub reports_from : ℕ → List Stream → List Emit
reports_from k [] = []
reports_from k (s ∷ streams) =
    Emit.stream_ended (wait_at k) (stream_error s.ended) ∷ reports_from (suc k) streams

wait_at-suc : (k : ℕ) → double_backoff (wait_at k) ≡ wait_at (suc k)
unfolding double_backoff
wait_at-suc k = ground arith

quiet-step :
    (k : ℕ) (es : List Event) (err : Text) (canceled canceled_waiting : Bool) (rest : ℕ → List Emit)
    → is_empty es && not canceled && not canceled_waiting ≡ true
    → map Emit.delivered es
        ++ (if canceled
            then []
            else Emit.stream_ended (if is_empty es then wait_at k else watch_min_backoff) err
              ∷ (if canceled_waiting
                  then []
                  else rest (if is_empty es then wait_at k else watch_min_backoff)))
      ≡ Emit.stream_ended (wait_at k) err ∷ rest (wait_at k)
quiet-step k [] err false false rest h = refl
quiet-step k [] err false true rest h = cc
quiet-step k [] err true canceled_waiting rest h = cc
quiet-step k (e ∷ es) err canceled canceled_waiting rest h = cc

watch_loop-quiet :
    (k : ℕ) (streams : List Stream)
    → All (λ s. is_quiet s ≡ true) streams
    → watch_loop (wait_at k) streams ≡ reports_from k streams
unfolding watch_loop
watch_loop-quiet k [] h = refl
watch_loop-quiet k (s ∷ streams) h =
    quiet-step k s.events (stream_error s.ended) s.canceled s.canceled_waiting
      (λ backoff. watch_loop (double_backoff backoff) streams) h.0
    ∙ ap (λ rest. Emit.stream_ended (wait_at k) (stream_error s.ended) ∷ rest)
        (rw (wait_at-suc k) (watch_loop-quiet (suc k) streams h.1))

inr_injective : (a b : List Emit) → Path (SourceError ⊎ List Emit) (inr a) (inr b) → a ≡ b
inr_injective a b h = cc

watch-accepted :
    (cfg : SourceConfig) (key : Text) (streams : List Stream)
    → validate_key key ≡ none
    → watch (Source.config_center cfg) key streams ≡ inr (watch_loop watch_min_backoff streams)
unfolding watch config_for_key
watch-accepted cfg key streams ok = rw (watch, config_for_key, ok) refl

watch-refused :
    (cfg : SourceConfig) (key : Text) (streams : List Stream) (e : KeyError)
    → validate_key key ≡ some e
    → watch (Source.config_center cfg) key streams ≡ inl (SourceError.bad_key e)
unfolding watch config_for_key
watch-refused cfg key streams e refused = rw (watch, config_for_key, refused) refl

-- A watch of a key that is accepted waits between one and thirty seconds after each stream that
-- ends.
pub watch-Waits :
    (cfg : SourceConfig) (key : Text) (streams : List Stream) (out : List Emit)
    → watch (Source.config_center cfg) key streams ≡ inr out
    → All Waits out
watch-Waits cfg key streams out h = elim (Option-cases (validate_key key)) [
  | inl ok ↦
      let e = watch-accepted cfg key streams ok in
      subst (All Waits) (inr_injective _ _ (sym e ∙ h))
        (watch_loop-Waits watch_min_backoff streams (omega arith) (omega arith))
  | inr (e, refused) ↦ let r = watch-refused cfg key streams e refused in ground (arith, r, h)
]

-- A watch whose streams all end at once, with no event and before the context is done, reports
-- every one of them and waits one second times two to the number of the stream, up to thirty.
pub watch-quiet :
    (cfg : SourceConfig) (key : Text) (streams : List Stream)
    → validate_key key ≡ none
    → All (λ s. is_quiet s ≡ true) streams
    → watch (Source.config_center cfg) key streams ≡ inr (reports_from 0 streams)
watch-quiet cfg key streams ok h =
    watch-accepted cfg key streams ok ∙ ap inr (watch_loop-quiet 0 streams h)
