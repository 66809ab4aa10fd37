-- ===== src/Queue/Invariant/Ring.antt =====
-- The history ring: its rows are numbered without a gap, up to the last.
use Prim.Native.Nat.{min}
use model_lib.Prelude.{
  ℕ, zero, suc, ◌+◌, ◌-◌, ◌≤◌, ◌≡◌, subst, List, [], ◌∷◌, ◌++◌, arith, length, drop, length-append,
  length-drop,
}
use model_lib.Queue.State.{Event}
use model_lib.Queue.History.{push_event}

-- The rows are numbered `k`, `k + 1`, and so on.
abbrev pub NumberedFrom : ℕ → List Event → Type 0
NumberedFrom k [] = Unit
NumberedFrom k (e ∷ es) = (e.seq ≡ k) × NumberedFrom (k + 1) es

NumberedFrom-append :
    (k : ℕ) (es : List Event) (e : Event)
    → NumberedFrom k es
    → e.seq ≡ k + length es
    → NumberedFrom k (es ++ e ∷ [])
NumberedFrom-append k [] e h q = (omega arith, tt)
NumberedFrom-append k (x ∷ es) e h q = (h.0, NumberedFrom-append (k + 1) es e h.1 (omega arith))

NumberedFrom-drop :
    (n k : ℕ) (es : List Event)
    → NumberedFrom k es
    → n ≤ length es
    → NumberedFrom (k + n) (drop n es)
NumberedFrom-drop zero k es h q = subst (λ x. NumberedFrom x es) (omega arith) h
NumberedFrom-drop (suc n) k [] h q = tt
NumberedFrom-drop (suc n) k (x ∷ es) h q =
    subst (λ x. NumberedFrom x (drop n es)) (omega arith)
      (NumberedFrom-drop n (k + 1) es h.1 (omega arith))

-- The ring after `seq` rows: the last ones, as many as the limit allows, numbered up to `seq`.
pub record IsRing (limit seq : ℕ) (events : List Event) : Type 0 where
  pub size : length events ≡ min seq limit
  pub numbered : NumberedFrom (seq + 1 - length events) events

pub push_event-IsRing :
    (limit seq : ℕ) (events : List Event) (e : Event)
    → IsRing limit seq events
    → e.seq ≡ seq + 1
    → IsRing limit (seq + 1) (push_event limit events e)
unfolding push_event
push_event-IsRing limit seq events e h q = record { size = len; numbered = nums }
  where
    all : List Event
    all = events ++ e ∷ []

    len : length (drop (length all - limit) all) ≡ min (seq + 1) limit
    len = omega (arith, length-drop (length all - limit) all, length-append events (e ∷ []), h.size)

    nums :
        NumberedFrom
          (seq + 1 + 1 - length (drop (length all - limit) all))
          (drop (length all - limit) all)
    nums =
        subst (λ x. NumberedFrom x (drop (length all - limit) all))
          (omega
            (arith, length-drop (length all - limit) all, length-append events (e ∷ []), h.size))
          (NumberedFrom-drop (length all - limit) (seq + 1 - length events) all
            (NumberedFrom-append (seq + 1 - length events) events e h.numbered
              (omega (arith, h.size)))
            (omega arith))
