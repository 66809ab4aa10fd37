-- ===== src/Workflow/Invariant.antt =====
-- The well-formedness of the coordinator, which every input keeps.
pub mod Opening
pub mod Typing
pub mod Storing
use model_lib.Prelude.{
  ℕ, ◌≡◌, ◌≢◌, ◌∙◌, refl, sym, ap, subst, Bool, true, false, ◌&&◌, ◌||◌, List, [], ◌∷◌, Option,
  none, some, arith, ◌==◌, ==_refl, ==_iff, if◌then◌else◌, Bool-cases, Option-cases, inl, inr,
}
use model_lib.Dict
use model_lib.Dict.{get-put}
use model_lib.Dict.Distinct.{Distinct, Distinct-put}
use model_lib.Queue.State.{Manager}
use model_lib.Queue.Invariant.Valid
use model_lib.Workflow.State.{EnqueueCycle, Coordinator, Sending, sends}
use model_lib.Workflow.Commands.{put_cycle}

unfoldable pub has : ℕ → List ℕ → Bool
has n [] = false
has n (k ∷ ks) = k == n || has n ks

-- A cycle under its count. Where both arms are ready, the count is among the touched ones.
pub record CycleOk (touched : List ℕ) (k : ℕ) (c : EnqueueCycle) : Type 0 where
  pub count : c.count ≡ k
  pub ends : c.end_sent_to_3d ≡ true → c.end_received ≡ true
  pub is_open : c.done_sent_to_plc ≡ false
  pub waiting : (c.arm1_ready && c.arm2_ready) ≡ true → has k touched ≡ true

pub record IsValidFor (touched : List ℕ) (w : Coordinator) : Type 0 where
  pub manager : Valid.IsValid w.queue_manager
  pub distinct : Distinct w.cycles
  pub cycles : (k : ℕ) (c : EnqueueCycle) → Dict.get k w.cycles ≡ some c → CycleOk touched k c
  pub window :
      (k : ℕ) (c : EnqueueCycle)
      → w.active_2d_window_count ≡ some k
      → Dict.get k w.cycles ≡ some c
      → c.end_received ≡ false

-- Between two inputs no cycle has both arms ready.
abbrev pub IsValid : Coordinator → Type 0
IsValid = IsValidFor []

pub sends-IsValid :
    (t : List ℕ) (s : Sending) (w : Coordinator) → IsValidFor t w → IsValidFor t (sends s w)
sends-IsValid t s w v = record {
  manager = v.manager;
  distinct = v.distinct;
  cycles = v.cycles;
  window = v.window;
}

pub put-CycleOk :
    (P : ℕ → EnqueueCycle → Type 0) (k : ℕ) (c : EnqueueCycle) (d : Dict.Dict EnqueueCycle)
    → P k c
    → ((j : ℕ) (e : EnqueueCycle) → Dict.get j d ≡ some e → P j e)
    → (j : ℕ) (e : EnqueueCycle) → Dict.get j (Dict.put k c d) ≡ some e
    → P j e
put-CycleOk P k c d new old j e h = elim (Bool-cases (k == j)) [
  | inl hit ↦
      subst (λ x. P j x) (ground (arith, get-put k j c d))
        (subst (λ i. P i c) ((==_iff k j).0 hit) new)
  | inr miss ↦ old j e (ground (arith, get-put k j c d))
]

pub put_cycle-IsValid :
    (t : List ℕ) (k : ℕ) (c : EnqueueCycle) (w : Coordinator)
    → IsValidFor t w
    → CycleOk t k c
    → (w.active_2d_window_count ≡ some k → c.end_received ≡ false)
    → IsValidFor t (put_cycle k c w)
unfolding put_cycle
put_cycle-IsValid t k c w v ok closed = record {
  manager = v.manager;
  distinct = Distinct-put k c w.cycles v.distinct;
  cycles = put-CycleOk (CycleOk t) k c w.cycles ok v.cycles;
  window = λ j e h g.
      put-CycleOk (λ i d. w.active_2d_window_count ≡ some i → d.end_received ≡ false) k c w.cycles
        closed (λ i d g r. v.window i d r g) j e g h;
}

pub get-put-some :
    (k j : ℕ) (v c : EnqueueCycle) (d : Dict.Dict EnqueueCycle)
    → some k ≡ some j
    → Dict.get j (Dict.put k v d) ≡ some c
    → v ≡ c
get-put-some k j v c d same h = ground (arith, ==_refl k, get-put k j v d)

pub if-IsValid_given :
    (t : List ℕ) (b : Bool) (x y : Coordinator)
    → (b ≡ true → IsValidFor t x)
    → (b ≡ false → IsValidFor t y)
    → IsValidFor t (if b then x else y)
if-IsValid_given t true x y f g = f refl
if-IsValid_given t false x y f g = g refl
