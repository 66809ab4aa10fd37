-- ===== src/Arms/Scanning.antt =====
-- The scan for commands: what it finds, and that the fuel given to it is enough.
use model_lib.Prelude.{
  ℕ, zero, suc, ◌≡◌, ◌≤◌, ◌<◌, refl, sym, ap, subst, ◌&&◌, List, [], ◌∷◌, ◌++◌, none, some, ◌==◌,
  length, length-append, Option-cases, OnSome, OnSome-some, Bool-cases, inl, inr, arith,
}
use mathlib.Core.Path.{ap₂}
use model_lib.Text.{Bytes}
use model_lib.Arms.Separators.{match_count-IsCounted}
use model_lib.Arms.Commands.{is_letter, match_data, match_command, find_commands}

-- What a search for the pattern from left to right finds, one match after the other.
pub data Scan : Bytes → List Bytes → Type 0 where
  finished : Scan [] []
  skips :
      {c : ℕ} {cs : Bytes} {cmds : List Bytes}
      → match_command (c ∷ cs) ≡ none
      → Scan cs cmds
      → Scan (c ∷ cs) cmds
  finds :
      {c : ℕ} {cs cmd rest : Bytes} {cmds : List Bytes}
      → match_command (c ∷ cs) ≡ some (cmd, rest)
      → Scan rest cmds
      → Scan (c ∷ cs) (cmd ∷ cmds)

-- A match is a part at the start of the text, with at least one character.
abbrev pub IsMatch : Bytes → Bytes × Bytes → Type 0
IsMatch text m = (text ≡ m.0 ++ m.1) × (0 < length m.0)

match_data-IsMatch : (text : Bytes) → OnSome (IsMatch text) (match_data text)
unfolding match_data
match_data-IsMatch [] = tt
match_data-IsMatch (a ∷ []) = tt
match_data-IsMatch (a ∷ b ∷ []) = tt
match_data-IsMatch (a ∷ b ∷ c ∷ []) = tt
match_data-IsMatch (a ∷ b ∷ c ∷ d ∷ rest) =
    elim (Bool-cases
      ((is_letter b'd' a && is_letter b'a' b) && (is_letter b't' c && is_letter b'a' d))) [
        | inl yes' ↦ rw yes' (refl, omega arith)
        | inr no' ↦ rw no' tt
      ]

match_command-IsMatch : (text : Bytes) → OnSome (IsMatch text) (match_command text)
unfolding match_command
match_command-IsMatch [] = tt
match_command-IsMatch (c ∷ cs) = elim (Bool-cases (c == b'1')) [
  | inl one ↦ rw one (ap (◌∷◌ c) (match_count-IsCounted cs).0, omega arith)
  | inr other ↦ rw other (match_data-IsMatch (c ∷ cs))
]

match_command-shorter :
    (text cmd rest : Bytes) → match_command text ≡ some (cmd, rest) → length rest < length text
match_command-shorter text cmd rest e =
    let (same, some') = OnSome-some (IsMatch text) _ (cmd, rest) (match_command-IsMatch text) e in
    omega (arith, ap length same, length-append cmd rest)

find_commands-scanned : (n : ℕ) (text : Bytes) → length text ≤ n → Scan text (find_commands n text)
unfolding find_commands
find_commands-scanned zero [] h = finished
find_commands-scanned zero (c ∷ cs) h = absurd (omega arith)
find_commands-scanned (suc n) [] h = finished
find_commands-scanned (suc n) (c ∷ cs) h = elim (Option-cases (match_command (c ∷ cs))) [
  | inl e ↦ rw (e, find_commands) (skips e (find_commands-scanned n cs (omega arith)))
  | inr ((cmd, rest), e) ↦
      rw (e, find_commands)
        (finds e
          (find_commands-scanned n rest (omega (arith, match_command-shorter (c ∷ cs) cmd rest e))))
]

same_match :
    (text : Bytes) {cmd cmd' rest rest' : Bytes}
    → match_command text ≡ some (cmd, rest)
    → match_command text ≡ some (cmd', rest')
    → (cmd ≡ cmd') × (rest ≡ rest')
same_match text e f = (cc, cc)

Scan-unique : {text : Bytes} {a b : List Bytes} → Scan text a → Scan text b → a ≡ b
Scan-unique finished finished = refl
Scan-unique (skips e r) (skips f s) = Scan-unique r s
Scan-unique (skips e r) (finds f s) = absurd (ground (arith, e, f))
Scan-unique (finds e r) (skips f s) = absurd (ground (arith, e, f))
Scan-unique (finds {cmds = xs} e r) (finds {cmds = ys} f s) =
    let (cmd, rest) = same_match _ e f in
    ap₂ (◌∷◌) cmd (Scan-unique r (subst (λ t. Scan t ys) (sym rest) s))

-- As many rounds as the text has characters, or more, are enough for the scan: it then finds what a
-- search for the pattern from left to right finds up to the end of the text, which is one list only.
pub find_commands-Scan :
    (n : ℕ) (text : Bytes)
    → length text ≤ n
    → Scan text (find_commands n text)
      × ((cmds : List Bytes) → Scan text cmds → cmds ≡ find_commands n text)
find_commands-Scan n text h =
    let found = find_commands-scanned n text h in (found, λ cmds other. Scan-unique other found)
