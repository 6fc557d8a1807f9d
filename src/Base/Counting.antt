-- ===== src/Base/Counting.antt =====
-- How many of the numbers below a bound pass a test, and the first one that fails it.
use novanet.Base.{
  ℕ, zero, suc, ◌≤◌, ◌<◌, ◌≡◌, refl, sym, ◌∙◌, ap, ◌≢◌, Bool, true, false, Option, none, some,
  arith, dec_lt, ℕ_discrete, if◌then◌else◌,
}

unfoldable pub count_below : ℕ → (ℕ → Bool) → ℕ
count_below zero f = 0
count_below (suc n) f = if f n then suc (count_below n f) else count_below n f

-- The count depends on the values below the bound alone.
pub count_below_ext :
    (n : ℕ) (f g : ℕ → Bool) → ((j : ℕ) → j < n → f j ≡ g j) → count_below n f ≡ count_below n g
unfolding count_below
count_below_ext zero f g h = refl
count_below_ext (suc n) f g h =
    ground (arith, h n (omega arith), count_below_ext n f g (λ j l. h j (omega arith)))

-- One more number passes.
pub count_below_add :
    (n : ℕ) (f g : ℕ → Bool) (i : ℕ)
    → i < n
    → f i ≡ false
    → g i ≡ true
    → ((j : ℕ) → j ≢ i → g j ≡ f j)
    → count_below n g ≡ suc (count_below n f)
unfolding count_below
count_below_add zero f g i h off on same = elim h [ ]
count_below_add (suc n) f g i h off on same = elim (ℕ_discrete i n) [
  | yes e ↦ ground (arith, count_below_ext n g f (λ j l. same j (omega arith)), ap f e, ap g e)
  | no e ↦ ground (arith, same n (omega arith), count_below_add n f g i (omega arith) off on same)
]

pub count_below-le : (n : ℕ) (f : ℕ → Bool) → count_below n f ≤ n
unfolding count_below
count_below-le zero f = omega arith
count_below-le (suc n) f = ground (arith, count_below-le n f)

-- If all pass then the count is the bound.
pub count_below_all : (n : ℕ) (f : ℕ → Bool) → ((j : ℕ) → j < n → f j ≡ true) → count_below n f ≡ n
unfolding count_below
count_below_all zero f h = refl
count_below_all (suc n) f h =
    ground (arith, h n (omega arith), count_below_all n f (λ j l. h j (omega arith)))

-- If one fails then the count is smaller.
pub count_below_lt : (n : ℕ) (f : ℕ → Bool) (i : ℕ) → i < n → f i ≡ false → count_below n f < n
unfolding count_below
count_below_lt zero f i h off = elim h [ ]
count_below_lt (suc n) f i h off = elim (ℕ_discrete i n) [
  | yes e ↦ ground (arith, count_below-le n f, ap f e)
  | no e ↦ ground (arith, count_below_lt n f i (omega arith) off)
]

pub count_below_none : (n : ℕ) (f : ℕ → Bool) → ((j : ℕ) → f j ≡ false) → count_below n f ≡ 0
unfolding count_below
count_below_none zero f h = refl
count_below_none (suc n) f h = ground (arith, h n, count_below_none n f h)

-- `r` is the least number from `lo` and below `size` at which `f` fails, if there is one.
abbrev pub LeastFree : (ℕ → Bool) → ℕ → ℕ → Option ℕ → Type 0
LeastFree f lo size none = (j : ℕ) → lo ≤ j → j < size → f j ≡ true
LeastFree f lo size (some i) =
    (lo ≤ i) × (i < size) × (f i ≡ false) × ((j : ℕ) → lo ≤ j → j < i → f j ≡ true)

-- There is one answer at most.
pub LeastFree-unique :
    (f : ℕ → Bool) (lo size : ℕ) (r s : Option ℕ)
    → LeastFree f lo size r
    → LeastFree f lo size s
    → r ≡ s
LeastFree-unique f lo size none none p q = refl
LeastFree-unique f lo size none (some i) p q = absurd (ground (arith, p i q.0 q.1, q.2))
LeastFree-unique f lo size (some i) none p q = absurd (ground (arith, q i p.0 p.1, p.2))
LeastFree-unique f lo size (some i) (some j) (a, b, c, d) (a', b', c', d') = elim (dec_lt i j) [
  | yes l ↦ absurd (ground (arith, d' i a l))
  | no l ↦ elim (dec_lt j i) [
    | yes m ↦ absurd (ground (arith, d j a' m))
    | no m ↦ ap some (omega arith)
  ]
]

pub LeastFree-ext :
    (f g : ℕ → Bool) (lo size : ℕ) (r : Option ℕ)
    → ((j : ℕ) → f j ≡ g j)
    → LeastFree f lo size r
    → LeastFree g lo size r
LeastFree-ext f g lo size none e p = λ j l m. sym (e j) ∙ p j l m
LeastFree-ext f g lo size (some i) e (a, b, c, d) =
    (a, b, sym (e i) ∙ c, λ j l m. sym (e j) ∙ d j l m)
