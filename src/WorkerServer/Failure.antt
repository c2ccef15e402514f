-- ===== src/WorkerServer/Failure.antt =====
-- What internal/workerserver/vmctl.go returns for a run of vmctl.
use mathlib.Core.List.{reverse, reverse-cons, reverse-reverse}
use victoriametrics_data_mig.Prelude.{
  some, ◌≡◌, refl, ◌⊎◌, inl, inr, true, false, List, [], ◌∷◌, ◌++◌, none, Text, codes, All,
  All-append, ==_iff, ◌∙◌, subst, append_assoc, Bool-cases, trim_space, join, is_zero, pos, negsuc,
  ℤ, ap,
}
use victoriametrics_data_mig.WorkerServer.Vmctl.{
  Exit, exit_error, other_error, runs, Scanner, is_meaningful, last_error, exit_code_of, wait_text,
  run_vmctl,
}

-- The message is the last meaningful line, trimmed, or `text` where no line is meaningful.
abbrev pub IsLastError : Text → List Text → Text → Type 0
IsLastError text lines message =
    ((before : List Text) × (line : Text) × (after : List Text) × (lines ≡ before ++ line ∷ after)
      × (is_meaningful line ≡ true)
      × All (λ l. is_meaningful l ≡ false) after
      × (message ≡ trim_space line))
    ⊎ All (λ l. is_meaningful l ≡ false) lines × (message ≡ text)

last_error-IsLastError :
    (text : Text) (lines : List Text) → IsLastError text (reverse lines) (last_error text lines)
unfolding last_error
last_error-IsLastError text [] = inr (tt, refl)
last_error-IsLastError text (line ∷ lines) = elim (Bool-cases (is_meaningful line)) [
  | inl found ↦ inl (reverse lines, line, [], reverse-cons line lines, found, tt, rw found refl)
  | inr blank ↦ elim (last_error-IsLastError text lines) [
    | inl (before, l, after, e, found, rest, same) ↦ inl (
      before,
      l,
      after ++ line ∷ [],
      reverse-cons line lines
          ∙ ap (λ ls. ls ++ line ∷ []) e
          ∙ append_assoc before (l ∷ after) (line ∷ []),
      found,
      All-append _ after (line ∷ []) rest (blank, tt),
      rw blank same,
    )
    | inr (none_found, same) ↦ inr (
      rw (reverse-cons line lines)
          (All-append _ (reverse lines) (line ∷ []) none_found (blank, tt)),
      rw blank same,
    )
  ]
]

is_zero_lem : (n : ℤ) → is_zero n ≡ true → n ≡ pos 0
is_zero_lem (pos n) h = ap pos ((==_iff n 0).0 h)
is_zero_lem (negsuc n) h = cc

module _ (scanner : Scanner) (exit : Exit) where
  -- A run of vmctl that started returns the lines of its output joined and the code of its exit: 0
  -- and no message where the wait succeeded, the code of the `*exec.ExitError`, or -1 for another
  -- error of the wait. Where that code is not 0, its error message is the last line of the output that
  -- is neither blank nor starts with `VictoriaMetrics`, without the spaces around it, or the error of
  -- the wait where there is no such line.
  pub run_vmctl-IsLastError :
      ((run_vmctl scanner (runs exit)).logs ≡ join (codes "\n") exit.lines)
      × (exit.wait ≡ none
          → ((run_vmctl scanner (runs exit)).exit_code ≡ pos 0)
            × ((run_vmctl scanner (runs exit)).error_message ≡ []))
      × ((code : ℤ) (text : Text)
          → exit.wait ≡ some (exit_error code text)
          → (run_vmctl scanner (runs exit)).exit_code ≡ code)
      × ((text : Text)
          → exit.wait ≡ some (other_error text)
          → (run_vmctl scanner (runs exit)).exit_code ≡ negsuc 0)
      × (¬ (run_vmctl scanner (runs exit)).exit_code ≡ pos 0
          → IsLastError
              (wait_text exit.wait)
              exit.lines
              (run_vmctl scanner (runs exit)).error_message)
  unfolding run_vmctl
  run_vmctl-IsLastError = (
    refl,
    (λ h. rw h (refl, refl)),
    (λ code text h. ap exit_code_of h),
    (λ text h. ap exit_code_of h),
    λ failed. elim (Bool-cases (is_zero (exit_code_of exit.wait))) [
      | inl zero_code ↦ absurd (failed (is_zero_lem (exit_code_of exit.wait) zero_code))
      | inr other ↦ rw other (
          subst
            (λ ls.
              IsLastError (wait_text exit.wait) ls
                (last_error (wait_text exit.wait) (reverse exit.lines)))
            (reverse-reverse exit.lines)
            (last_error-IsLastError (wait_text exit.wait) (reverse exit.lines)))
    ],
  )
