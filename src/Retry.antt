-- ===== src/Retry.antt =====
-- UTL_RUN_WITH_RETRY of Sinetek-rtsx/util.h: a call that is made again while it fails.
use sinetek_rtsx.Base.{
  ℕ, zero, suc, ◌≤◌, ◌≡◌, ◌⊎◌, refl, subst, ap, sym, ◌∙◌, none, some, arith, Errno, Code, is_error,
  if◌then◌else◌, inl, inr, Option-cases,
}

-- `function(args)` is a step on a state; `retries` is the count given to the macro.
unfoldable pub run_with_retry : {S : Type 0} → ℕ → (S → Code × S) → S → Code × S
run_with_retry zero function s = function s
run_with_retry (suc retr) function s =
    let again = run_with_retry retr function (function s).1 in
    if is_error (function s).0 then again else function s

module _ {S : Type 0} (f : S → Code × S) where
  -- `n` failed calls in a row lead from one state to another.
  pub data Fails : ℕ → S → S → Type 0 where
    start : {s : S} → Fails 0 s s
    fail : {n : ℕ} {s t : S} (e : Errno) → (f s).0 ≡ some e → Fails n (f s).1 t → Fails (suc n) s t

  run_with_retry-ok : (r : ℕ) (s : S) → (f s).0 ≡ none → run_with_retry (suc r) f s ≡ f s
  unfolding run_with_retry
  run_with_retry-ok r s e = ground arith

  run_with_retry-again :
      (r : ℕ) (s : S) (c : Errno)
      → (f s).0 ≡ some c
      → run_with_retry (suc r) f s ≡ run_with_retry r f (f s).1
  unfolding run_with_retry
  run_with_retry-again r s c e = ground arith

  -- The macro makes at most as many failed calls as the retries it is given, and returns the
  -- result of one more call, which is a success or the last that the count allows.
  pub run_with_retry_lem :
      (retries : ℕ) (s : S)
      → (n : ℕ) × (t : S) × Fails n s t
        × (n ≤ retries)
        × (((f t).0 ≡ none) ⊎ (n ≡ retries))
        × (run_with_retry retries f s ≡ f t)
  unfolding run_with_retry
  run_with_retry_lem zero s = (0, s, start, omega arith, inr refl, refl)
  run_with_retry_lem (suc r) s = elim (Option-cases (f s).0) [
    | inl e ↦ (0, s, start, omega arith, inl e, run_with_retry-ok r s e)
    | inr (c, e) ↦
        let (n, t, fails, le, stop, same) = run_with_retry_lem r (f s).1 in
        (
          suc n,
          t,
          fail c e fails,
          omega arith,
          elim stop [ inl done ↦ inl done | inr all ↦ inr (ap suc all) ],
          run_with_retry-again r s c e ∙ same,
        )
  ]

  -- What every call keeps, the macro keeps.
  pub run_with_retry_inv :
      (P : S → Type 0)
      → ((s : S) → P s → P (f s).1)
      → (retries : ℕ) (s : S) → P s
      → P (run_with_retry retries f s).1
  unfolding run_with_retry
  run_with_retry_inv P keep zero s p = keep s p
  run_with_retry_inv P keep (suc r) s p = elim (Option-cases (f s).0) [
    | inl e ↦ subst (λ x. P x.1) (sym (run_with_retry-ok r s e)) (keep s p)
    | inr (c, e) ↦
        subst (λ x. P x.1) (sym (run_with_retry-again r s c e))
          (run_with_retry_inv P keep r (f s).1 (keep s p))
  ]

  -- A success is the success of one call, made in a state that keeps the invariant.
  pub run_with_retry_last :
      (P : S → Type 0)
      → ((s : S) → P s → P (f s).1)
      → (retries : ℕ) (s : S) → P s
      → (run_with_retry retries f s).0 ≡ none
      → (t : S) × P t × (f t ≡ run_with_retry retries f s)
  unfolding run_with_retry
  run_with_retry_last P keep zero s p done = (s, p, refl)
  run_with_retry_last P keep (suc r) s p done = elim (Option-cases (f s).0) [
    | inl e ↦ (s, p, sym (run_with_retry-ok r s e))
    | inr (c, e) ↦
        let again = run_with_retry-again r s c e in
        let (t, q, same) =
          run_with_retry_last P keep r (f s).1 (keep s p) (ap (λ x. x.0) (sym again) ∙ done) in
        (t, q, same ∙ sym again)
  ]
