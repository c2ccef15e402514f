-- ===== src/WorkerServer/Vmctl.antt =====
-- internal/workerserver/vmctl.go: a run of vmctl as a subprocess. What becomes of the subprocess is
-- an argument; `fmt.Sscanf` with `%f`, the product with float64 and the order in which Go ranges over
-- the map of units are parameters.
use mathlib.Core.List.{reverse}
use victoriametrics_data_mig.Prelude.{
  ℕ, ◌^◌, ◌-◌, Bool, not, ◌&&◌, List, [], ◌∷◌, ◌++◌, map, Option, none, some, Text, codes, is_empty,
  starts_with, strip, trim_space, trim_suffix, join, leb, ◌==◌, if◌then◌else◌, ℤ, pos, negsuc,
  is_zero,
}

pub record VmctlResult : Type 0 where
  pub exit_code : ℤ
  pub logs : Text
  pub error_message : Text
  pub bytes_transferred : ℕ

-- What `cmd.Wait` returns for a command that failed: an `*exec.ExitError` with its code, or another
-- error.
pub data WaitError : Type 0 where
  exit_error : ℤ → Text → WaitError
  other_error : Text → WaitError

-- A subprocess that ran: the lines of stdout and stderr in the order in which the two goroutines
-- append them, and the error of the wait.
pub record Exit : Type 0 where
  pub lines : List Text
  pub wait : Option WaitError

pub data Launch : Type 0 where
  no_stdout no_stderr not_started : Text → Launch
  runs : Exit → Launch

-- A number that is scanned at the start of a text, the bytes that it makes of a unit, and the units
-- in the order of the loop. The sizes that vmctl prints are not negative.
pub record Scanner : Type 1 where
  pub Number : Type 0
  pub scan : Text → Option Number
  pub scaled : Number → ℕ → ℕ
  pub multipliers : List (Text × ℕ)

-- The map of `parseHumanBytes`.
abbrev pub units : List (Text × ℕ)
units =
    (codes "TB", 1024 ^ 4)
    ∷ (codes "GB", 1024 ^ 3)
    ∷ (codes "MB", 1024 ^ 2)
    ∷ (codes "KB", 1024)
    ∷ (codes "B", 1)
    ∷ []

-- `strings.ToUpper` where only ASCII text is looked for: besides the ASCII letters, U+0131 and U+017F
-- are the characters whose upper case is in ASCII.
abbrev pub upper : ℕ → ℕ
upper c =
    if leb b'a' c && leb c b'z'
    then c - 32
    else if c == 0x131
    then b'I'
    else if c == 0x17f
    then b'S'
    else c

abbrev pub has_suffix : Text → Text → Bool
has_suffix suffix s = starts_with (reverse suffix) (reverse s)

module _ (scanner : Scanner) where
  abbrev or_more : Option scanner.Number → ℕ → ℕ → ℕ
  or_more none mult more = more
  or_more (some val) mult more = scanner.scaled val mult

  -- The loop over the units.
  pub parse_with : List (Text × ℕ) → Text → ℕ
  parse_with [] s = 0
  parse_with ((suffix, mult) ∷ us) s =
      let more = parse_with us s in
      if has_suffix suffix s
      then or_more (scanner.scan (trim_space (trim_suffix suffix s))) mult more
      else more

  unfoldable pub parse_human_bytes : Text → ℕ
  unfolding parse_with
  parse_human_bytes s = parse_with scanner.multipliers (map upper (trim_space s))

-- What stands before and after the first place of a separator.
pub cut : Text → Text → Option (Text × Text)
cut sep [] = none
cut sep (c ∷ s) =
    if starts_with sep (c ∷ s)
    then some ([], strip sep (c ∷ s))
    else elim (cut sep s) [ none ↦ none | some (front, back) ↦ some (c ∷ front, back) ]

-- The first part of `strings.Split`.
abbrev before_sep : Text → Text → Text
before_sep sep s = elim (cut sep s) [ none ↦ s | some (front, back) ↦ front ]

-- `strings.Split(s, "\n")`.
pub split_lines : Text → List Text
split_lines [] = [] ∷ []
split_lines (c ∷ s) =
    let rest = split_lines s in
    if c == 10
    then [] ∷ rest
    else elim rest [ [] ↦ (c ∷ []) ∷ [] | line ∷ lines ↦ (c ∷ line) ∷ lines ]

module _ (scanner : Scanner) where
  pub bytes_in : List Text → ℕ
  unfolding cut
  bytes_in [] = 0
  bytes_in (line ∷ lines) =
      let more = bytes_in lines in
      elim (cut (codes "total bytes:") line) [
        | none ↦ more
        | some (front, back) ↦
            parse_human_bytes scanner
              (before_sep (codes ";") (trim_space (before_sep (codes "total bytes:") back)))
      ]

  unfoldable pub parse_vmctl_bytes : Text → ℕ
  unfolding bytes_in split_lines
  parse_vmctl_bytes logs = bytes_in (split_lines logs)

abbrev pub is_meaningful : Text → Bool
is_meaningful line =
    not (is_empty (trim_space line))
    && not (starts_with (codes "VictoriaMetrics") (trim_space line))

-- The loop for a failed command, over the lines from the last one on.
unfoldable pub last_error : Text → List Text → Text
last_error message [] = message
last_error message (line ∷ lines) =
    if is_meaningful line then trim_space line else last_error message lines

abbrev pub exit_code_of : Option WaitError → ℤ
exit_code_of none = pos 0
exit_code_of (some (exit_error code text)) = code
exit_code_of (some (other_error text)) = negsuc 0

abbrev pub wait_text : Option WaitError → Text
wait_text none = []
wait_text (some (exit_error code text)) = text
wait_text (some (other_error text)) = text

abbrev failed : Text → VmctlResult
failed message = record {
  exit_code = negsuc 0;
  logs = [];
  error_message = message;
  bytes_transferred = 0;
}

unfoldable pub run_vmctl : Scanner → Launch → VmctlResult
unfolding last_error
run_vmctl scanner (no_stdout e) = failed (codes "failed to create stdout pipe: " ++ e)
run_vmctl scanner (no_stderr e) = failed (codes "failed to create stderr pipe: " ++ e)
run_vmctl scanner (not_started e) = failed (codes "failed to start vmctl: " ++ e)
run_vmctl scanner (runs exit) = record {
  exit_code = exit_code_of exit.wait;
  logs = join (codes "\n") exit.lines;
  error_message =
      if is_zero (exit_code_of exit.wait)
      then wait_text exit.wait
      else last_error (wait_text exit.wait) (reverse exit.lines);
  bytes_transferred = parse_vmctl_bytes scanner (join (codes "\n") exit.lines);
}
