-- ===== src/Cwp/Workflow/Compensates.antt =====
-- infra/cwp/workflow.py: what a saga runs and undoes.
use cyberware.Prelude.{
  ℕ, zero, suc, ◌+◌, ◌<◌, ◌≤◌, ◌≡◌, refl, ap, ◌∙◌, true, false, Option, none, some, List, [], ◌∷◌,
  ◌++◌, ◌==◌, ==_iff, arith,
}
use cyberware.Cwp.Workflow.Reach.{if_either}
use cyberware.Cwp.Workflow.{Saga, reversed, same_numbers, is_at, saga_from, run_saga}

-- The numbers below `n`, in order.
unfoldable pub below : ℕ → List ℕ
below zero = []
below (suc n) = below n ++ n ∷ []

same_self : (xs : List ℕ) → same_numbers xs xs ≡ true
same_self [] = refl
same_self (x ∷ xs) = ground (arith, same_self xs)

abbrev pub failed_saga : ℕ → Saga
failed_saga k = record {
  failed_at = some k;
  ran = below k;
  compensated = reversed (below k);
  compensation_ran = true;
}

abbrev pub whole_saga : ℕ → Saga
whole_saga n = record { failed_at = none; ran = below n; compensated = []; compensation_ran = true }

fails_at :
    (left i k : ℕ) → i ≤ k → k < i + left → saga_from left i (some k) (below i) ≡ failed_saga k
unfolding saga_from below
fails_at zero i k h l = absurd (omega arith)
fails_at (suc left) i k h l =
    if_either (λ r. r ≡ failed_saga k) (i == k) (stopped i (below i))
      (saga_from left (suc i) (some k) (below (suc i)))
      (λ here.
        ap
          (λ b. record {
            failed_at = some i;
            ran = below i;
            compensated = reversed (below i);
            compensation_ran = b;
          })
          (same_self (reversed (below i)))
        ∙ ap failed_saga ((==_iff i k).0 here))
      (λ before. fails_at left (suc i) k (later before) (omega arith))
  where
    stopped : ℕ → List ℕ → Saga
    stopped j done = record {
      failed_at = some j;
      ran = done;
      compensated = reversed done;
      compensation_ran = same_numbers (reversed done) (reversed done);
    }

    later : (i == k) ≡ false → suc i ≤ k
    later e = ground arith

never_fails :
    (left i : ℕ) (o : Option ℕ)
    → ((k : ℕ) → o ≡ some k → i + left ≤ k)
    → saga_from left i o (below i) ≡ whole_saga (i + left)
unfolding saga_from below
never_fails zero i o h = ap whole_saga (number i)
  where
    number : (i : ℕ) → i ≡ i + 0
    number i = omega arith
never_fails (suc left) i o h =
    if_either (λ r. r ≡ whole_saga (i + suc left)) (is_at o i) (stopped i (below i))
      (saga_from left (suc i) o (below (suc i))) (λ here. absurd (not_here o h here))
      (λ before.
        never_fails left (suc i) o (λ k e. further k (h k e)) ∙ ap whole_saga (shifted i left))
  where
    stopped : ℕ → List ℕ → Saga
    stopped j done = record {
      failed_at = some j;
      ran = done;
      compensated = reversed done;
      compensation_ran = same_numbers (reversed done) (reversed done);
    }

    further : (k : ℕ) → i + suc left ≤ k → suc i + left ≤ k
    further k e = omega arith

    shifted : (i left : ℕ) → suc i + left ≡ i + suc left
    shifted i left = omega arith

    not_here : (o : Option ℕ) → ((k : ℕ) → o ≡ some k → i + suc left ≤ k) → is_at o i ≡ true → ⊥
    not_here none e f = ground arith
    not_here (some k) e f = let late = e k refl in ground arith

-- A saga of `n` steps that fails at its step `k` has run the steps before `k`, in order, and has
-- compensated exactly those, the last first.
pub run_saga-Compensates : (n k : ℕ) → k < n → run_saga n (some k) ≡ failed_saga k
unfolding run_saga below
run_saga-Compensates n k inside = fails_at n 0 k (omega arith) (omega arith)

-- A saga whose failure point is not among its steps runs all of them and compensates none.
pub run_saga-completes :
    (n : ℕ) (o : Option ℕ) → ((k : ℕ) → o ≡ some k → n ≤ k) → run_saga n o ≡ whole_saga n
unfolding run_saga below
run_saga-completes n o outside =
    never_fails n 0 o (λ k e. from_start k (outside k e)) ∙ ap whole_saga (start n)
  where
    from_start : (k : ℕ) → n ≤ k → 0 + n ≤ k
    from_start k h = omega arith

    start : (n : ℕ) → 0 + n ≡ n
    start n = omega arith
