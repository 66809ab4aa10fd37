-- ===== src/Plc/Reading.antt =====
-- What is read from a connection does not depend on how the bytes arrive.
use model_lib.Prelude.{
  ℕ, zero, suc, ◌+◌, ◌-◌, ◌≡◌, ◌≤◌, ◌∙◌, refl, sym, ap, [], ◌∷◌, ◌++◌, true, false, if◌then◌else◌,
  ◌==◌, leb, length, length-append, take, drop, arith, Bool-cases, inl, inr, if_then, if_else,
}
use mathlib.Core.List.{append_assoc, append-nil}
use model_lib.Text.{Bytes}
use model_lib.Plc.Stream.{Socket, all_bytes, put_back, recv, recv_loop, recv_exact}

length-take : (n : ℕ) (xs ys : Bytes) → length (take n xs) + length (drop n xs) ≡ length xs
length-take zero xs ys = omega arith
length-take (suc n) [] ys = omega arith
length-take (suc n) (x ∷ xs) ys = omega (arith, length-take n xs ys)

length-take_le : (n : ℕ) (xs : Bytes) → length (take n xs) ≤ n
length-take_le zero xs = omega arith
length-take_le (suc n) [] = omega arith
length-take_le (suc n) (x ∷ xs) = omega (arith, length-take_le n xs)

put_back-bytes : (bs : Bytes) (s : Socket) → all_bytes (put_back bs s) ≡ bs ++ all_bytes s
unfolding put_back all_bytes
put_back-bytes [] s = refl
put_back-bytes (b ∷ bs) s = refl

sub_zero : (n : ℕ) → n ≡ n - 0
sub_zero n = omega arith

sub_suc : (n m : ℕ) → n - m ≡ suc n - suc m
sub_suc n m = omega arith

take-append :
    (n : ℕ) (xs ys : Bytes)
    → take n (xs ++ ys) ≡ take n xs ++ take (n - length (take n xs)) (drop n xs ++ ys)
take-append zero xs ys = refl
take-append (suc n) [] ys = ap (λ j. take j ys) (sub_zero (suc n))
take-append (suc n) (x ∷ xs) ys = ap (◌∷◌ x) (
    take-append n xs ys
    ∙ ap (λ j. take n xs ++ take j (drop n xs ++ ys)) (sub_suc n (length (take n xs))))

drop-append :
    (n : ℕ) (xs ys : Bytes) → drop n (xs ++ ys) ≡ drop (n - length (take n xs)) (drop n xs ++ ys)
drop-append zero xs ys = refl
drop-append (suc n) [] ys = ap (λ j. drop j ys) (sub_zero (suc n))
drop-append (suc n) (x ∷ xs) ys =
    drop-append n xs ys ∙ ap (λ j. drop j (drop n xs ++ ys)) (sub_suc n (length (take n xs)))

-- What a read of `n` bytes gives, with bytes received before, where the stream has these bytes.
record Reads (n : ℕ) (received stream : Bytes) (result : Bytes × Socket) : Type 0 where
  enough :
      leb n (length stream) ≡ true
      → (result.0 ≡ received ++ take n stream) × (all_bytes result.1 ≡ drop n stream)
  short : leb n (length stream) ≡ false → result.0 ≡ []

-- After a chunk the rest has the bytes that are still needed if the whole had all of them.
counts_agree :
    (k x : ℕ) (xs : Bytes) (cs : Socket)
    → leb (suc k - length (x ∷ take k xs)) (length (all_bytes (put_back (drop k xs) cs)))
      ≡ leb (suc k) (length (x ∷ (xs ++ all_bytes cs)))
counts_agree k x xs cs = ground (
  arith,
  ap length (put_back-bytes (drop k xs) cs),
  length-append xs (all_bytes cs),
  length-append (drop k xs) (all_bytes cs),
  length-take k xs [],
  length-take_le k xs,
)

recv_loop-Reads :
    (fuel n : ℕ) (received : Bytes) (s : Socket)
    → n ≤ fuel
    → Reads n received (all_bytes s) (recv_loop fuel n received s)
unfolding recv_loop recv all_bytes
recv_loop-Reads zero zero received s h = record {
  enough = λ e. (sym (append-nil received), refl);
  short = λ e. absurd (ground arith);
}
recv_loop-Reads (suc f) zero received s h = record {
  enough = λ e. (sym (append-nil received), refl);
  short = λ e. absurd (ground arith);
}
recv_loop-Reads zero (suc k) received s h = absurd (omega arith)
recv_loop-Reads (suc f) (suc k) received [] h = record {
  enough = λ e. absurd (ground arith);
  short = λ e. ground arith;
}
recv_loop-Reads (suc f) (suc k) received ((x, xs) ∷ cs) h =
    let got = x ∷ take k xs in
    let left = put_back (drop k xs) cs in
    let needed = suc k - length got in
    let bytes = put_back-bytes (drop k xs) cs in
    let step =
      if_else (suc k == 0) (received, (x, xs) ∷ cs) (recv_loop f needed (received ++ got) left)
        (ground arith) in
    let rest = recv_loop-Reads f needed (received ++ got) left (omega arith) in
    record {
      enough = λ e.
          let (r, b) = rest.enough (counts_agree k x xs cs ∙ e) in
          (
            ap (λ p. p.0) step
                ∙ r
                ∙ ap (λ l. (received ++ got) ++ take needed l) bytes
                ∙ append_assoc received got (take needed (drop k xs ++ all_bytes cs))
                ∙ ap (λ l. received ++ x ∷ l)
                    (ap (λ j. take k xs ++ take j (drop k xs ++ all_bytes cs))
                        (sym (sub_suc k (length (take k xs))))
                      ∙ sym (take-append k xs (all_bytes cs))),
            ap (λ p. all_bytes p.1) step
                ∙ b
                ∙ ap (drop needed) bytes
                ∙ ap (λ j. drop j (drop k xs ++ all_bytes cs))
                    (sym (sub_suc k (length (take k xs))))
                ∙ sym (drop-append k xs (all_bytes cs)),
          );
      short = λ e. ap (λ p. p.0) step ∙ rest.short (counts_agree k x xs cs ∙ e);
    }

recv_exact-Reads : (n : ℕ) (s : Socket) → Reads n [] (all_bytes s) (recv_exact n s)
unfolding recv_exact
recv_exact-Reads n s = recv_loop-Reads n n [] s (omega arith)

recv_exact-first :
    (n : ℕ) (s : Socket)
    → (recv_exact n s).0 ≡ (if leb n (length (all_bytes s)) then take n (all_bytes s) else [])
recv_exact-first n s = elim (Bool-cases (leb n (length (all_bytes s)))) [
  | inl e ↦ ((recv_exact-Reads n s).enough e).0 ∙ sym (if_then _ (take n (all_bytes s)) [] e)
  | inr e ↦ (recv_exact-Reads n s).short e ∙ sym (if_else _ (take n (all_bytes s)) [] e)
]

-- `_recv_exact` reads exactly the next bytes, however they arrive, and leaves those after them; it
-- returns nothing where the peer closes before that many came. So two connections that carry the
-- same bytes give the same message.
pub recv_exact-bytes :
    (n : ℕ) (s t : Socket)
    → ((recv_exact n s).0 ≡ (if leb n (length (all_bytes s)) then take n (all_bytes s) else []))
      × (leb n (length (all_bytes s)) ≡ true → all_bytes (recv_exact n s).1 ≡ drop n (all_bytes s))
      × (all_bytes s ≡ all_bytes t → (recv_exact n s).0 ≡ (recv_exact n t).0)
recv_exact-bytes n s t = (
  recv_exact-first n s,
  λ e. ((recv_exact-Reads n s).enough e).1,
  λ same.
      recv_exact-first n s
      ∙ ap (λ b. if leb n (length b) then take n b else []) same
      ∙ sym (recv_exact-first n t),
)
