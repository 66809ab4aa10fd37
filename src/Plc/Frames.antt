-- ===== src/Plc/Frames.antt =====
-- The frames that a connection of the PLC gives, however its bytes arrive.
use model_lib.Prelude.{
  ℕ, zero, suc, ◌≡◌, ◌<◌, refl, sym, ap, subst, ◌∙◌, true, List, [], ◌∷◌, ◌++◌, if◌then◌else◌, leb,
  length, length-drop, take, drop, All, Bool-cases, inl, inr, if_then, if_else, arith,
}
use mathlib.Core.List.{append_assoc}
use mathlib.Core.Path.{ap₂}
use model_lib.Text.{Bytes}
use model_lib.Plc.Stream.{Socket, all_bytes, recv_exact}
use model_lib.Plc.Reading.{recv_exact-bytes}
use model_lib.Plc.Connections.{next_frames, read_frames, all_frames}

-- A text cut into pieces of a size, without what is left over.
unfoldable pub cut : ℕ → ℕ → Bytes → List Bytes
cut zero size b = []
cut (suc n) size b =
    let rest = cut n size (drop size b) in if leb size (length b) then take size b ∷ rest else []

unfoldable pub joined : List Bytes → Bytes
joined [] = []
joined (f ∷ fs) = f ++ joined fs

next_frames-take :
    (k : ℕ) (b : Bytes) (rest : List Bytes)
    → leb (suc k) (length b) ≡ true
    → next_frames (take (suc k) b) rest ≡ take (suc k) b ∷ rest
unfolding next_frames
next_frames-take k [] rest h = absurd (ground (arith, h))
next_frames-take k (x ∷ xs) rest h = refl

read_frames-cut : (n k : ℕ) (s : Socket) → read_frames n (suc k) s ≡ cut n (suc k) (all_bytes s)
unfolding read_frames cut next_frames
read_frames-cut zero k s = refl
read_frames-cut (suc n) k s =
    let (first, after, _) = recv_exact-bytes (suc k) s s in
    let b = all_bytes s in
    let r = recv_exact (suc k) s in
    let enough = leb (suc k) (length b) in
    elim (Bool-cases enough) [
      | inl e ↦
          ap₂ next_frames (first ∙ if_then enough (take (suc k) b) [] e)
            (read_frames-cut n k r.1 ∙ ap (cut n (suc k)) (after e))
          ∙ next_frames-take k b (cut n (suc k) (drop (suc k) b)) e
          ∙ sym (if_then enough _ [] e)
      | inr e ↦
          ap (λ f. next_frames f (read_frames n (suc k) r.1))
            (first ∙ if_else enough (take (suc k) b) [] e)
          ∙ sym (if_else enough (take (suc k) b ∷ cut n (suc k) (drop (suc k) b)) [] e)
    ]

take-drop : (n : ℕ) (b : Bytes) → take n b ++ drop n b ≡ b
take-drop zero b = refl
take-drop (suc n) [] = refl
take-drop (suc n) (x ∷ xs) = ap (◌∷◌ x) (take-drop n xs)

length-take : (n : ℕ) (b : Bytes) → leb n (length b) ≡ true → length (take n b) ≡ n
length-take zero b h = refl
length-take (suc n) [] h = absurd (ground (arith, h))
length-take (suc n) (x ∷ xs) h = ground (arith, length-take n xs)

-- Pieces of the size, and what is left over.
abbrev pub IsCut : ℕ → Bytes → List Bytes → Type 0
IsCut size b fs =
    All (λ f. length f ≡ size) fs × (rest : Bytes) × (b ≡ joined fs ++ rest) × (length rest < size)

cut-IsCut : (n k : ℕ) (b : Bytes) → length b < n → IsCut (suc k) b (cut n (suc k) b)
unfolding cut joined
cut-IsCut zero k b h = absurd (omega arith)
cut-IsCut (suc n) k b h = elim (Bool-cases (leb (suc k) (length b))) [
  | inl e ↦
      let (sizes, rest, same, short) =
        cut-IsCut n k (drop (suc k) b) (ground (arith, length-drop (suc k) b, e)) in
      rw e (
        (length-take (suc k) b e, sizes),
        rest,
        sym (take-drop (suc k) b)
            ∙ ap (λ t. take (suc k) b ++ t) same
            ∙ sym (append_assoc (take (suc k) b) (joined (cut n (suc k) (drop (suc k) b))) rest),
        short,
      )
  | inr e ↦ rw e (tt, b, refl, ground (arith, e))
]

-- The loop over a connection ends, and reads the bytes of the stream in pieces of the frame's size:
-- nothing is lost but an incomplete frame at the end. Streams with the same bytes give the same
-- frames, however the bytes arrive.
pub all_frames-IsCut :
    (k : ℕ) (s t : Socket)
    → IsCut (suc k) (all_bytes s) (all_frames (suc k) s)
      × (all_bytes s ≡ all_bytes t → all_frames (suc k) s ≡ all_frames (suc k) t)
all_frames-IsCut k s t =
    let fuel = suc (length (all_bytes s)) in
    (
      subst (IsCut (suc k) (all_bytes s)) (sym (read_frames-cut fuel k s))
          (cut-IsCut fuel k (all_bytes s) (omega arith)),
      λ e.
          read_frames-cut fuel k s
          ∙ ap (λ b. cut (suc (length b)) (suc k) b) e
          ∙ sym (read_frames-cut (suc (length (all_bytes t))) k t),
    )
