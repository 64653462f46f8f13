-- ===== src/Scenario/Frame/Levels.antt =====
-- One array of sibling nodes: reading, writing, splicing and swapping.
use ocs_testbench.Common.{ℕ, zero, suc, ◌<◌, ◌≡◌, refl, ap, some, arith}
use ocs_testbench.Scenario.{AvpNode, AvpTree, nil, cons}
use ocs_testbench.Scenario.Frame.{count, nth, put, remove, append, swap_at}

pub nth_lt : (t : AvpTree) (i : ℕ) {n : AvpNode} → nth t i ≡ some n → i < count t
nth_lt nil i h = cc
nth_lt (cons m t) zero h = omega arith
nth_lt (cons m t) (suc i) h = omega (arith, nth_lt t i h)

pub nth_of_lt : (t : AvpTree) (i : ℕ) → i < count t → (n : AvpNode) × (nth t i ≡ some n)
nth_of_lt nil i h = elim h [ ]
nth_of_lt (cons m t) zero h = (m, refl)
nth_of_lt (cons m t) (suc i) h = nth_of_lt t i (omega arith)

pub nth-put_self : (t : AvpTree) (i : ℕ) (m : AvpNode) → i < count t → nth (put t i m) i ≡ some m
nth-put_self nil i m h = elim h [ ]
nth-put_self (cons n t) zero m h = refl
nth-put_self (cons n t) (suc i) m h = nth-put_self t i m (omega arith)

pub count-put : (t : AvpTree) (i : ℕ) (m : AvpNode) → count (put t i m) ≡ count t
count-put nil i m = refl
count-put (cons n t) zero m = refl
count-put (cons n t) (suc i) m = ap suc (count-put t i m)

pub put_self : (t : AvpTree) (i : ℕ) (n : AvpNode) → nth t i ≡ some n → put t i n ≡ t
put_self nil i n h = refl
put_self (cons m t) zero n h = ground arith
put_self (cons m t) (suc i) n h = ap (λ l. cons m l) (put_self t i n h)

pub put-put : (t : AvpTree) (i : ℕ) (m n : AvpNode) → put (put t i m) i n ≡ put t i n
put-put nil i m n = refl
put-put (cons k t) zero m n = refl
put-put (cons k t) (suc i) m n = ap (λ l. cons k l) (put-put t i m n)

pub nth-append : (t : AvpTree) (m : AvpNode) → nth (append t m) (count t) ≡ some m
nth-append nil m = refl
nth-append (cons n t) m = nth-append t m

pub count-append : (t : AvpTree) (m : AvpNode) → count (append t m) ≡ suc (count t)
count-append nil m = refl
count-append (cons n t) m = ap suc (count-append t m)

pub remove-append : (t : AvpTree) (m : AvpNode) → remove (append t m) (count t) ≡ t
remove-append nil m = refl
remove-append (cons n t) m = ap (λ l. cons n l) (remove-append t m)

pub swap_swap : (t : AvpTree) (i : ℕ) → swap_at (swap_at t i) i ≡ t
swap_swap nil i = refl
swap_swap (cons n nil) zero = refl
swap_swap (cons n (cons m t)) zero = refl
swap_swap (cons n t) (suc i) = ap (λ l. cons n l) (swap_swap t i)

pub count-swap : (t : AvpTree) (i : ℕ) → count (swap_at t i) ≡ count t
count-swap nil i = refl
count-swap (cons n nil) zero = refl
count-swap (cons n (cons m t)) zero = refl
count-swap (cons n t) (suc i) = ap suc (count-swap t i)

pub nth-swap : (t : AvpTree) (i : ℕ) → suc i < count t → nth (swap_at t i) i ≡ nth t (suc i)
nth-swap nil i h = elim h [ ]
nth-swap (cons n nil) zero h = absurd (omega arith)
nth-swap (cons n (cons m t)) zero h = refl
nth-swap (cons n t) (suc i) h = nth-swap t i (omega arith)

pub nth-swap_suc : (t : AvpTree) (i : ℕ) → suc i < count t → nth (swap_at t i) (suc i) ≡ nth t i
nth-swap_suc nil i h = elim h [ ]
nth-swap_suc (cons n nil) zero h = absurd (omega arith)
nth-swap_suc (cons n (cons m t)) zero h = refl
nth-swap_suc (cons n t) (suc i) h = nth-swap_suc t i (omega arith)
