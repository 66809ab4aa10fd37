-- ===== src/Workflow/Fragments.antt =====
-- The frames of the 3D camera do not depend on how its bytes arrive.
use model_lib.Prelude.{
  ℕ, suc, ◌≡◌, ◌<◌, ◌≤◌, ◌+◌, refl, sym, ap, ◌∙◌, subst, [], ◌∷◌, ◌++◌, Option, none, some, ◌==◌,
  if◌then◌else◌, length, length-append, split_append, Option-cases, OnSome, OnSome-some, inl, inr,
  arith,
}
use mathlib.Core.List.{append_assoc, head-eq_of_cons-eq}
use model_lib.Text.{Bytes}
use model_lib.Workflow.Brackets.{
  group, frame_of, IsBody, IsFrame, match_frame-IsFrame, match_frame_complete,
}
use model_lib.Workflow.Frames.{not_bracket, match_frame, search_frame, pop_3d_frame}
use model_lib.Workflow.Draining.{Shrinks}

unfoldable opens : Bytes → ℕ
opens [] = 0
opens (c ∷ cs) = let rest = opens cs in if c == b'(' then suc rest else rest

opens-append : (xs ys : Bytes) → opens (xs ++ ys) ≡ opens xs + opens ys
unfolding opens
opens-append [] ys = omega arith
opens-append (x ∷ xs) ys = ground (arith, opens-append xs ys)

opens-body : (body : Bytes) → IsBody body → opens body ≡ 0
unfolding opens not_bracket
opens-body [] h = refl
opens-body (c ∷ cs) h = ground (arith, opens-body cs h.1, h.0)

opens-frame : (one two : Bytes) → IsBody one → IsBody two → opens (frame_of one two) ≡ 2
unfolding opens
opens-frame one two h k = ground (
  arith,
  opens-append (group one) (b'A' ∷ group two),
  opens-append one (b')' ∷ b'E' ∷ []),
  opens-append two (b')' ∷ b'E' ∷ []),
  opens-body one h,
  opens-body two k,
)

match_frame-opens : (text : Bytes) → OnSome (λ m. 2 ≤ opens text) (match_frame text)
match_frame-opens text = elim (Option-cases (match_frame text)) [
  | inl e ↦ rw e tt
  | inr (m, e) ↦
      let (one, two, h, k, same, whole) =
        OnSome-some (IsFrame text) _ m (match_frame-IsFrame text) e in
      rw e (
        omega (arith, ap opens whole, opens-append m.0 m.1, ap opens same, opens-frame one two h k))
]

search_frame-here :
    (c : ℕ) (cs : Bytes) (m : Bytes × Bytes)
    → match_frame (c ∷ cs) ≡ some m
    → search_frame (c ∷ cs) ≡ some m
unfolding search_frame
search_frame-here c cs m e = rw (e, search_frame) refl

search_frame-later :
    (c : ℕ) (cs : Bytes) → match_frame (c ∷ cs) ≡ none → search_frame (c ∷ cs) ≡ search_frame cs
unfolding search_frame
search_frame-later c cs e = rw (e, search_frame) refl

opens-tail : (c : ℕ) (cs : Bytes) → opens cs ≤ opens (c ∷ cs)
unfolding opens
opens-tail c cs = ground arith

search_frame-opens :
    (text : Bytes) (m : Bytes × Bytes) → search_frame text ≡ some m → 2 ≤ opens text
search_frame-opens [] m e = absurd (unfold search_frame in ground (arith, e))
search_frame-opens (c ∷ cs) m e = elim (Option-cases (match_frame (c ∷ cs))) [
  | inl none' ↦
      omega
        (arith, search_frame-opens cs m (sym (search_frame-later c cs none') ∙ e), opens-tail c cs)
  | inr (n, some') ↦ OnSome-some (λ m. 2 ≤ opens (c ∷ cs)) _ n (match_frame-opens (c ∷ cs)) some'
]

-- A frame starts with a bracket.
first-bracket :
    (c : ℕ) (cs k one two : Bytes)
    → frame_of one two ≡ (c ∷ cs) ++ k
    → opens (c ∷ cs) ≡ suc (opens cs)
unfolding opens
first-bracket c cs k one two e = rw (sym (head-eq_of_cons-eq e)) refl

-- Where the text goes on with a frame, no bytes after it bring one about that starts earlier.
no_earlier :
    (c : ℕ) (cs b : Bytes) (m : Bytes × Bytes)
    → match_frame (c ∷ cs) ≡ none
    → search_frame cs ≡ some m
    → match_frame ((c ∷ cs) ++ b) ≡ none
no_earlier c cs b m e found = elim (Option-cases (match_frame ((c ∷ cs) ++ b))) [
  | inl none' ↦ none'
  | inr (n, some') ↦
      let (one, two, h, k, same, whole) =
        OnSome-some (IsFrame ((c ∷ cs) ++ b)) _ n (match_frame-IsFrame ((c ∷ cs) ++ b)) some' in
      elim (split_append (c ∷ cs) b (frame_of one two) n.1 (whole ∙ ap (λ f. f ++ n.1) same)) [
        | inl (rest, inside) ↦
            let again : match_frame (c ∷ cs) ≡ some (frame_of one two, rest) =
              ap match_frame inside ∙ match_frame_complete one two rest h k in
            absurd (ground (arith, e, again))
        | inr (rest, outside) ↦ absurd (
            omega (
              arith,
              ap opens outside,
              opens-append (c ∷ cs) rest,
              opens-frame one two h k,
              first-bracket c cs rest one two outside,
              search_frame-opens cs m found,
            ))
      ]
]

match_frame-append :
    (text b : Bytes) (m : Bytes × Bytes)
    → match_frame text ≡ some m
    → match_frame (text ++ b) ≡ some (m.0, m.1 ++ b)
match_frame-append text b m e =
    let (one, two, h, k, same, whole) =
      OnSome-some (IsFrame text) _ m (match_frame-IsFrame text) e in
    ap (λ t. match_frame (t ++ b)) (whole ∙ ap (λ f. f ++ m.1) same)
    ∙ ap match_frame (append_assoc (frame_of one two) m.1 b)
    ∙ match_frame_complete one two (m.1 ++ b) h k
    ∙ ap (λ f. some (f, m.1 ++ b)) (sym same)

-- The rest of the text with more bytes.
abbrev longer : Bytes → Option (Bytes × Bytes) → Option (Bytes × Bytes)
longer b none = none
longer b (some m) = some (m.0, m.1 ++ b)

pub search_frame-append :
    (a b : Bytes) (m : Bytes × Bytes)
    → search_frame a ≡ some m
    → search_frame (a ++ b) ≡ some (m.0, m.1 ++ b)
search_frame-append [] b m e = absurd (unfold search_frame in ground (arith, e))
search_frame-append (c ∷ cs) b m e = elim (Option-cases (match_frame (c ∷ cs))) [
  | inl none' ↦
      let later = sym (search_frame-later c cs none') ∙ e in
      search_frame-later c (cs ++ b) (no_earlier c cs b m none' later)
      ∙ search_frame-append cs b m later
  | inr (n, some') ↦
      search_frame-here c (cs ++ b) (n.0, n.1 ++ b) (match_frame-append (c ∷ cs) b n some')
      ∙ ap (longer b) (sym (search_frame-here c cs n some') ∙ e)
]

search_frame-shorter :
    (text : Bytes) (m : Bytes × Bytes) → search_frame text ≡ some m → length m.1 < length text
search_frame-shorter [] m e = absurd (unfold search_frame in ground (arith, e))
search_frame-shorter (c ∷ cs) m e = elim (Option-cases (match_frame (c ∷ cs))) [
  | inl none' ↦ omega (arith, search_frame-shorter cs m (sym (search_frame-later c cs none') ∙ e))
  | inr (n, some') ↦
      let same : n ≡ m = cc (sym (search_frame-here c cs n some') ∙ e) in
      let (one, two, h, k, frame, whole) =
        OnSome-some (IsFrame (c ∷ cs)) _ n (match_frame-IsFrame (c ∷ cs)) some' in
      subst (λ m. length m.1 < length (c ∷ cs)) same
        (omega (
          arith,
          ap length (whole ∙ ap (λ f. f ++ n.1) frame),
          length-append (frame_of one two) n.1,
        ))
]

pub pop_3d_frame-some :
    (a : Bytes) (m : Bytes × Bytes) → search_frame a ≡ some m → pop_3d_frame a ≡ (some m.0, m.1)
unfolding pop_3d_frame
pop_3d_frame-some a m e = rw (e, pop_3d_frame) refl

pub pop_3d_frame-none : (a : Bytes) → search_frame a ≡ none → pop_3d_frame a ≡ (none, a)
unfolding pop_3d_frame
pop_3d_frame-none a e = rw (e, pop_3d_frame) refl

pub pop_3d_frame-Shrinks : Shrinks pop_3d_frame
pop_3d_frame-Shrinks b f e = elim (Option-cases (search_frame b)) [
  | inl none' ↦ absurd (ground (arith, e, ap (λ p. p.0) (pop_3d_frame-none b none')))
  | inr (m, some') ↦
      omega
        (arith, search_frame-shorter b m some', ap (λ p. length p.1) (pop_3d_frame-some b m some'))
]
