-- ===== src/Loki/Post/Stops.antt =====
-- loki.c: when the thread that posts stops the logging.
use csh.Prelude.{
  ℕ, zero, suc, ◌+◌, ◌≤◌, ◌≡◌, refl, ◌⊎◌, inl, inr, ◌↔◌, Option, none, some, List, [], ◌∷◌, Bool,
  true, false, ltb, arith,
}
use csh.Loki.Post.{Poster, post_thread}

-- The next `n` messages all fail; rounds without a message do not count.
abbrev pub Fail : ℕ → List (Option Bool) → Type 0
Fail zero rounds = Unit {0}
Fail (suc n) [] = ⊥
Fail (suc n) (none ∷ rounds) = Fail (suc n) rounds
Fail (suc n) (some true ∷ rounds) = ⊥
Fail (suc n) (some false ∷ rounds) = Fail n rounds

-- Somewhere, six messages in a row fail.
abbrev pub SixFail : List (Option Bool) → Type 0
SixFail [] = ⊥
SixFail (r ∷ rounds) = Fail 6 (r ∷ rounds) ⊎ SixFail rounds

Fail-SixFail : (rounds : List (Option Bool)) → Fail 6 rounds → SixFail rounds
Fail-SixFail [] h = h
Fail-SixFail (r ∷ rounds) h = inl h

Fail-fewer : (n m : ℕ) (rounds : List (Option Bool)) → m ≤ n → Fail n rounds → Fail m rounds
Fail-fewer n zero rounds le h = tt
Fail-fewer zero (suc m) rounds le h = absurd (omega arith)
Fail-fewer (suc n) (suc m) [] le h = h
Fail-fewer (suc n) (suc m) (none ∷ rounds) le h = Fail-fewer (suc n) (suc m) rounds le h
Fail-fewer (suc n) (suc m) (some true ∷ rounds) le h = h
Fail-fewer (suc n) (suc m) (some false ∷ rounds) le h = Fail-fewer n m rounds (omega arith) h

abbrev pub poster : Bool → ℕ → ℕ → Poster
poster running count freed = record { running = running; curl_err_count = count; freed = freed }

stopped_stays :
    (rounds : List (Option Bool)) (k f : ℕ)
    → (post_thread rounds (poster false k f)).running ≡ false
unfolding post_thread
stopped_stays [] k f = refl
stopped_stays (r ∷ rounds) k f = stopped_stays rounds k f

-- With `n + 1` failures left before the stop, behind `k` in a row.
run_from :
    (rounds : List (Option Bool)) (k f n : ℕ)
    → k + n ≡ 5
    → ((post_thread rounds (poster true k f)).running ≡ false)
      ↔ (Fail (suc n) rounds ⊎ SixFail rounds)
unfolding post_thread
run_from [] k f n left = (λ e. absurd (cc), λ h. elim h [ inl x ↦ absurd x | inr x ↦ absurd x ])
run_from (none ∷ rounds) k f n left =
    let ih = run_from rounds k f n left in
    (
      λ e. elim (ih.0 e) [ inl x ↦ inl x | inr x ↦ inr (inr x) ],
      λ h. elim h [
        | inl x ↦ ih.1 (inl x)
        | inr x ↦ elim x [ inl y ↦ ih.1 (inr (Fail-SixFail rounds y)) | inr y ↦ ih.1 (inr y) ]
      ],
    )
run_from (some true ∷ rounds) k f n left =
    let ih = run_from rounds 0 (f + 1) 5 (omega arith) in
    (
      λ e. elim (ih.0 e) [ inl x ↦ inr (inr (Fail-SixFail rounds x)) | inr x ↦ inr (inr x) ],
      λ h. elim h [ inl x ↦ absurd x | inr x ↦ elim x [ inl y ↦ absurd y | inr y ↦ ih.1 (inr y) ] ],
    )
run_from (some false ∷ rounds) k f zero left =
    let sixth : ltb 5 (k + 1) ≡ true = ground arith in
    (λ e. inl tt, λ h. rw (sixth, post_thread) (stopped_stays rounds 0 (f + 1)))
run_from (some false ∷ rounds) k f (suc n) left =
    let more : ltb 5 (k + 1) ≡ false = ground arith in
    let ih = run_from rounds (k + 1) (f + 1) n (omega arith) in
    rw (more, post_thread)
      (
        λ e. elim (ih.0 e) [ inl x ↦ inl x | inr x ↦ inr (inr x) ],
        λ h. elim h [
          | inl x ↦ ih.1 (inl x)
          | inr x ↦ elim x [
            | inl y ↦ ih.1 (inl (Fail-fewer 5 (suc n) rounds (omega arith) y))
            | inr y ↦ ih.1 (inr y)
          ]
        ],
      )

-- From its start, the thread stops the logging exactly if somewhere six messages in a row fail: a message that
-- is posted starts the count again, and rounds without a message do not.
pub post_thread-SixFail :
    (rounds : List (Option Bool)) (freed : ℕ)
    → ((post_thread rounds (poster true 0 freed)).running ≡ false) ↔ SixFail rounds
post_thread-SixFail rounds freed =
    let h = run_from rounds 0 freed 5 (omega arith) in
    (λ e. elim (h.0 e) [ inl x ↦ Fail-SixFail rounds x | inr x ↦ x ], λ x. h.1 (inr x))
