-- ===== src/Client/Watch/Loops.antt =====
-- The loops of client/servicewatch.go when one is canceled and when one returns.
use ecommerce_gateway.Common.{
  ℕ, ◌≡◌, refl, arith, Bool, false, not, ◌&&◌, List, [], ◌∷◌, Text, text_eq, text_eq_iff, select,
  map, any, ◌==◌,
}
use ecommerce_gateway.Client.Watch.{WatchLoop, is_loop, is_cancelled, is_running, cancel_loop}

-- Another endpoint's loops are not canceled.
pub any-cancel_loop-running :
    (e f : Text) (n m : ℕ) (loops : List WatchLoop)
    → text_eq e f ≡ false
    → any (is_running f m) (map (cancel_loop e n) loops) ≡ any (is_running f m) loops
unfolding any is_running is_loop cancel_loop
any-cancel_loop-running e f n m [] h = refl
any-cancel_loop-running e f n m (l ∷ loops) h = ground (
  arith,
  text_eq_iff l.endpoint e,
  text_eq_iff l.endpoint f,
  text_eq_iff e f,
  h,
  any-cancel_loop-running e f n m loops h,
)

pub any-cancel_loop-cancelled :
    (e f : Text) (n m : ℕ) (loops : List WatchLoop)
    → text_eq e f ≡ false
    → any (is_cancelled f m) (map (cancel_loop e n) loops) ≡ any (is_cancelled f m) loops
unfolding any is_cancelled is_loop cancel_loop
any-cancel_loop-cancelled e f n m [] h = refl
any-cancel_loop-cancelled e f n m (l ∷ loops) h = ground (
  arith,
  text_eq_iff l.endpoint e,
  text_eq_iff l.endpoint f,
  text_eq_iff e f,
  h,
  any-cancel_loop-cancelled e f n m loops h,
)

pub any-cancel_loop :
    (e f : Text) (n m : ℕ) (loops : List WatchLoop)
    → any (is_loop f m) (map (cancel_loop e n) loops) ≡ any (is_loop f m) loops
unfolding any is_loop cancel_loop
any-cancel_loop e f n m [] = refl
any-cancel_loop e f n m (l ∷ loops) = ground (arith, any-cancel_loop e f n m loops)

-- A loop that returns takes no other along.
pub any-select-running :
    (e f : Text) (n m : ℕ) (loops : List WatchLoop)
    → (text_eq e f && (n == m)) ≡ false
    → any (is_running f m) (select (λ l. not (is_loop e n l)) loops) ≡ any (is_running f m) loops
unfolding any is_running is_loop select
any-select-running e f n m [] h = refl
any-select-running e f n m (l ∷ loops) h = ground (
  arith,
  text_eq_iff l.endpoint e,
  text_eq_iff l.endpoint f,
  text_eq_iff e f,
  h,
  any-select-running e f n m loops h,
)

pub any-select-false :
    (p q : WatchLoop → Bool) (loops : List WatchLoop)
    → any p loops ≡ false
    → any p (select q loops) ≡ false
unfolding any select
any-select-false p q [] h = refl
any-select-false p q (l ∷ loops) h = ground (arith, any-select-false p q loops)

-- A loop that is canceled is a loop.
pub any-is_cancelled-false :
    (e : Text) (n : ℕ) (loops : List WatchLoop)
    → any (is_loop e n) loops ≡ false
    → any (is_cancelled e n) loops ≡ false
unfolding any is_cancelled is_loop
any-is_cancelled-false e n [] h = refl
any-is_cancelled-false e n (l ∷ loops) h = ground (arith, any-is_cancelled-false e n loops)
