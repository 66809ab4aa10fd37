-- ===== src/Arms/Rounds.antt =====
-- Which requests `_extract_commands` drops: those that repeat one that is still open.
use model_lib.Prelude.{
  ◌≡◌, refl, Bool, true, false, not, ◌&&◌, List, [], ◌∷◌, if◌then◌else◌, arith, All, Bool-cases,
  inl, inr, if_then, if_else,
}
use model_lib.Text.{Bytes}
use model_lib.Arms.Commands.{is_data, drop_repeats}

-- No request comes while another is open.
unfoldable pub alternates : Bool → List Bytes → Bool
alternates pending [] = true
alternates pending (cmd ∷ cmds) = not (is_data cmd && pending) && alternates (is_data cmd) cmds

unfoldable pub completions : List Bytes → List Bytes
completions [] = []
completions (cmd ∷ cmds) = let rest = completions cmds in if is_data cmd then rest else cmd ∷ rest

-- Whether a request is open at each completion and at the end. A completion closes it.
unfoldable pub open_requests : Bool → List Bytes → List Bool
open_requests pending [] = pending ∷ []
open_requests pending (cmd ∷ cmds) =
    let requested = open_requests true cmds in
    let closed = open_requests false cmds in if is_data cmd then requested else pending ∷ closed

-- Of the commands of one text, every completion is kept in its place and every completion answers an
-- open request just where it did before; no request is left that comes while another is open; and
-- commands without such a request are kept as they are.
pub drop_repeats_lem :
    (pending : Bool) (cmds : List Bytes)
    → (completions (drop_repeats pending cmds) ≡ completions cmds)
      × (open_requests pending (drop_repeats pending cmds) ≡ open_requests pending cmds)
      × (alternates pending (drop_repeats pending cmds) ≡ true)
      × (alternates pending cmds ≡ true → drop_repeats pending cmds ≡ cmds)
unfolding drop_repeats completions open_requests alternates
drop_repeats_lem pending [] = (refl, refl, refl, λ h. refl)
drop_repeats_lem true (cmd ∷ cmds) =
    ground (arith, drop_repeats_lem true cmds, drop_repeats_lem false cmds)
drop_repeats_lem false (cmd ∷ cmds) =
    ground (arith, drop_repeats_lem true cmds, drop_repeats_lem false cmds)

pub drop_repeats-All :
    (P : Bytes → Type 0) (pending : Bool) (cmds : List Bytes)
    → All P cmds
    → All P (drop_repeats pending cmds)
unfolding drop_repeats
drop_repeats-All P pending [] h = tt
drop_repeats-All P pending (cmd ∷ cmds) h =
    let rest = drop_repeats (is_data cmd) cmds in
    let kept = drop_repeats-All P (is_data cmd) cmds h.1 in
    elim (Bool-cases (is_data cmd && pending)) [
      | inl repeated ↦ rw (if_then (is_data cmd && pending) rest (cmd ∷ rest) repeated) kept
      | inr new ↦ rw (if_else (is_data cmd && pending) rest (cmd ∷ rest) new) (h.0, kept)
    ]
