-- ===== src/Workflow/Brackets.antt =====
-- The frames of the 3D camera: what the pattern matches.
use model_lib.Prelude.{
  ℕ, ◌≡◌, refl, sym, ap, ◌∙◌, subst, false, ◌&&◌, [], ◌∷◌, ◌++◌, none, some, ◌==◌, ==_iff,
  Option-cases, Bool-cases, OnSome, OnSome-some, inl, inr, arith,
}
use mathlib.Core.List.{append_assoc}
use model_lib.Text.{Bytes}
use model_lib.Text.Span.{span, Satisfies, span-append, span_sound}
use model_lib.Workflow.Frames.{not_bracket, match_close, match_group, match_second, match_frame}

-- `(...)E` without brackets inside.
abbrev pub group : Bytes → Bytes
group body = b'(' ∷ (body ++ b')' ∷ b'E' ∷ [])

-- Two of them with an `A` between.
abbrev pub frame_of : Bytes → Bytes → Bytes
frame_of one two = group one ++ b'A' ∷ group two

abbrev pub IsBody : Bytes → Type 0
IsBody = Satisfies not_bracket

-- A part of a text of a given form.
abbrev pub IsGroup : Bytes → Bytes × Bytes → Type 0
IsGroup text m = (body : Bytes) × IsBody body × (m.0 ≡ group body) × (text ≡ m.0 ++ m.1)

abbrev pub IsFrame : Bytes → Bytes × Bytes → Type 0
IsFrame text m =
    (one two : Bytes) × IsBody one × IsBody two × (m.0 ≡ frame_of one two) × (text ≡ m.0 ++ m.1)

match_close-IsGroup :
    (body rest : Bytes)
    → IsBody body
    → OnSome (IsGroup (b'(' ∷ (body ++ rest))) (match_close body rest)
unfolding match_close
match_close-IsGroup body [] h = tt
match_close-IsGroup body (c ∷ []) h = tt
match_close-IsGroup body (c ∷ d ∷ rest) h = elim (Bool-cases (c == b')' && d == b'E')) [
  | inl yes' ↦
      let close : c ≡ b')' = ground (arith, yes') in
      let last : d ≡ b'E' = ground (arith, yes') in
      rw (yes', close, last)
        (body, h, refl, ap (◌∷◌ b'(') (sym (append_assoc body (b')' ∷ b'E' ∷ []) rest)))
  | inr no' ↦ rw no' tt
]

match_group-IsGroup : (text : Bytes) → OnSome (IsGroup text) (match_group text)
unfolding match_group
match_group-IsGroup [] = tt
match_group-IsGroup (c ∷ cs) = elim (Bool-cases (c == b'(')) [
  | inl yes' ↦
      let (same, body, _) = span_sound not_bracket cs in
      let open' : c ≡ b'(' = (==_iff c b'(').0 yes' in
      rw yes' (
        subst
          (λ t. OnSome (IsGroup t) (match_close (span not_bracket cs).0 (span not_bracket cs).1))
          (ap (◌∷◌ b'(') (sym same) ∙ ap (λ k. k ∷ cs) (sym open'))
          (match_close-IsGroup (span not_bracket cs).0 (span not_bracket cs).1 body))
  | inr no' ↦ rw no' tt
]

match_group_complete :
    (body rest : Bytes) → IsBody body → match_group (group body ++ rest) ≡ some (group body, rest)
unfolding match_group match_close
match_group_complete body rest h =
    rw
      (
        append_assoc body (b')' ∷ b'E' ∷ []) rest,
        span-append not_bracket body (b')' ∷ b'E' ∷ rest) h (unfold not_bracket in refl),
      )
      refl

match_second-some :
    (one : Bytes) (cs : Bytes) (m : Bytes × Bytes)
    → IsBody one
    → match_group cs ≡ some m
    → IsGroup cs m
    → OnSome (IsFrame (group one ++ b'A' ∷ cs)) (match_second (group one) (b'A' ∷ cs))
unfolding match_second
match_second-some one cs m h e (two, k, same, whole) =
    rw (e, match_second)
      (
        one,
        two,
        h,
        k,
        ap (λ t. group one ++ b'A' ∷ t) same,
        ap (λ t. group one ++ b'A' ∷ t) whole ∙ sym (append_assoc (group one) (b'A' ∷ m.0) m.1),
      )

match_second-other :
    (first cs : Bytes) (c : ℕ) → (c == b'A') ≡ false → match_second first (c ∷ cs) ≡ none
unfolding match_second
match_second-other first cs c h = elim (Option-cases (match_group cs)) [
  | inl e ↦ rw (e, match_second) refl
  | inr (m, e) ↦ rw (e, h, match_second) refl
]

match_second-none :
    (first cs : Bytes) (c : ℕ) → match_group cs ≡ none → match_second first (c ∷ cs) ≡ none
unfolding match_second
match_second-none first cs c e = rw (e, match_second) refl

match_second-IsFrame :
    (one rest : Bytes)
    → IsBody one
    → OnSome (IsFrame (group one ++ rest)) (match_second (group one) rest)
match_second-IsFrame one [] h = unfold match_second in tt
match_second-IsFrame one (c ∷ cs) h = elim (Bool-cases (c == b'A')) [
  | inr other ↦ rw (match_second-other (group one) cs c other) tt
  | inl a ↦ elim (Option-cases (match_group cs)) [
    | inl e ↦ rw (match_second-none (group one) cs c e) tt
    | inr (m, e) ↦
        subst (λ k. OnSome (IsFrame (group one ++ k ∷ cs)) (match_second (group one) (k ∷ cs)))
          (sym ((==_iff c b'A').0 a))
          (match_second-some one cs m h e
            (OnSome-some (IsGroup cs) (match_group cs) m (match_group-IsGroup cs) e))
  ]
]

pub match_frame-IsFrame : (text : Bytes) → OnSome (IsFrame text) (match_frame text)
unfolding match_frame
match_frame-IsFrame text = elim (Option-cases (match_group text)) [
  | inl e ↦ rw (e, match_frame) tt
  | inr (m, e) ↦
      let (one, h, same, whole) =
        OnSome-some (IsGroup text) (match_group text) m (match_group-IsGroup text) e in
      rw (e, match_frame)
        (subst (λ t. OnSome (IsFrame t) (match_second m.0 m.1)) (sym whole)
          (subst (λ f. OnSome (IsFrame (f ++ m.1)) (match_second f m.1)) (sym same)
            (match_second-IsFrame one m.1 h)))
]

match_frame-group :
    (text : Bytes) (m : Bytes × Bytes)
    → match_group text ≡ some m
    → match_frame text ≡ match_second m.0 m.1
unfolding match_frame
match_frame-group text m e = rw (e, match_frame) refl

match_second-group :
    (first cs : Bytes) (m : Bytes × Bytes)
    → match_group cs ≡ some m
    → match_second first (b'A' ∷ cs) ≡ some (first ++ b'A' ∷ m.0, m.1)
unfolding match_second
match_second-group first cs m e = rw (e, match_second) refl

pub match_frame_complete :
    (one two rest : Bytes)
    → IsBody one
    → IsBody two
    → match_frame (frame_of one two ++ rest) ≡ some (frame_of one two, rest)
match_frame_complete one two rest h k =
    let after : Bytes = b'A' ∷ (group two ++ rest) in
    ap match_frame (append_assoc (group one) (b'A' ∷ group two) rest)
    ∙ match_frame-group (group one ++ after) (group one, after) (match_group_complete one after h)
    ∙ match_second-group (group one) (group two ++ rest) (group two, rest)
        (match_group_complete two rest k)
