-- ===== src/Workflow/Lines.antt =====
-- The frames of the 2D camera: each takes bytes out of the buffer, so that its loop ends, and a line
-- that has not arrived in full is taken as a frame.
use model_lib.Prelude.{
  ℕ, ◌≡◌, ◌<◌, ◌≤◌, ap, [], ◌∷◌, Option, none, some, length, length-append, Option-cases,
  Bool-cases, OnSome, OnSome-some, inl, inr, arith,
}
use model_lib.Text.{Bytes}
use model_lib.Text.Span.{span, span_sound}
use model_lib.Text.Strip.{strip_by}
use model_lib.Workflow.Frames.{
  is_line_blank, is_byte_space, find_end, after_return, find_line, line_frame, pop_candidate,
  pop_stripped, pop_2d_frame, looks_like_2d_line,
}
use model_lib.Workflow.Draining.{Shrinks}

-- What follows is shorter than the text.
abbrev IsShorter : Bytes → Bytes × Bytes → Type 0
IsShorter text m = length m.1 < length text

find_end-IsShorter : (text : Bytes) → OnSome (IsShorter text) (find_end text)
unfolding find_end
find_end-IsShorter [] = tt
find_end-IsShorter (c ∷ []) = tt
find_end-IsShorter (c ∷ d ∷ cs) = ground (arith, find_end-IsShorter (d ∷ cs))

after_return-length : (cs : Bytes) → length (after_return cs) ≤ length cs
unfolding after_return
after_return-length [] = omega arith
after_return-length (c ∷ cs) = ground arith

find_line-IsShorter : (text : Bytes) → OnSome (IsShorter text) (find_line text)
unfolding find_line
find_line-IsShorter [] = tt
find_line-IsShorter (c ∷ cs) = ground (arith, find_line-IsShorter cs, after_return-length cs)

-- Where there is a frame, fewer than that many bytes stay.
abbrev Takes : ℕ → Option Bytes × Bytes → Type 0
Takes n (none, rest) = Unit
Takes n (some f, rest) = length rest < n

Takes-line : (n : ℕ) (o : Option Bytes) (rest : Bytes) → length rest < n → Takes n (o, rest)
Takes-line n none rest h = tt
Takes-line n (some f) rest h = h

pop_candidate-Takes : (c : ℕ) (cs : Bytes) → Takes (length (c ∷ cs)) (pop_candidate (c ∷ cs))
unfolding pop_candidate
pop_candidate-Takes c cs =
    elim (Bool-cases (looks_like_2d_line (strip_by is_byte_space (c ∷ cs)))) [
      | inl yes' ↦ rw (yes', pop_candidate) (omega arith)
      | inr no' ↦ rw (no', pop_candidate) tt
    ]

pop_stripped-Takes : (text : Bytes) → Takes (length text) (pop_stripped text)
unfolding pop_stripped
pop_stripped-Takes [] = tt
pop_stripped-Takes (c ∷ cs) =
    let text : Bytes = c ∷ cs in
    elim (Option-cases (find_end text)) [
      | inr (m, e) ↦
          rw (e, pop_stripped) (OnSome-some (IsShorter text) _ m (find_end-IsShorter text) e)
      | inl e ↦ elim (Option-cases (find_line text)) [
        | inr (m, f) ↦
            rw (e, f, pop_stripped)
              (Takes-line (length text) (line_frame (strip_by is_byte_space m.0)) m.1
                (OnSome-some (IsShorter text) _ m (find_line-IsShorter text) f))
        | inl f ↦ rw (e, f, pop_stripped) (pop_candidate-Takes c cs)
      ]
    ]

Takes-shorter :
    (n k : ℕ) (p : Option Bytes × Bytes) (f : Bytes)
    → n ≤ k
    → Takes n p
    → p.0 ≡ some f
    → length p.1 < k
Takes-shorter n k (none, rest) f l h e = absurd (ground (arith, e))
Takes-shorter n k (some g, rest) f l h e = omega (arith, l, h)

pub pop_2d_frame-Shrinks : Shrinks pop_2d_frame
unfolding pop_2d_frame
pop_2d_frame-Shrinks b f e =
    let rest = (span is_line_blank b).1 in
    let (same, _, _) = span_sound is_line_blank b in
    Takes-shorter (length rest) (length b) (pop_stripped rest) f
      (omega (arith, ap length same, length-append (span is_line_blank b).0 rest))
      (pop_stripped-Takes rest) e
