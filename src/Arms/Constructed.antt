-- ===== src/Arms/Constructed.antt =====
-- What the constructor of the arm controller makes, and what it refuses.
use model_lib.Prelude.{
  subst, ℕ, ◌≡◌, ◌≢◌, ◌⊎◌, ◌↔◌, refl, sym, ap, ◌∙◌, ==_iff, true, false, [], ◌∷◌, none, some,
  is_some, All, arith, Option-cases, Bool-cases, inl, inr,
}
use mathlib.Core.Path.{ap₂}
use model_lib.Dict
use model_lib.Dict.{get-put}
use model_lib.Dict.Distinct.{Distinct}
use model_lib.Text.{Bytes, bytes_eq}
use model_lib.Arms.Link.{ConnectionMode, active, passive}
use model_lib.Arms.Controller.{
  ArmsConfig, ArmController, constructed, unsupported_mode, missing_key, active_word, passive_word,
  normal_mode, find_mode, normalize_config, build_arm, add_arms, new_controller,
}
use model_lib.Arms.Built.{
  all_complete, last_of, IsNew, found_last, is_some-add_arms, add_arms-IsNew,
}

bytes_eq_sound : (a b : Bytes) → bytes_eq a b ≡ true → a ≡ b
unfolding bytes_eq
bytes_eq_sound [] [] h = refl
bytes_eq_sound [] (y ∷ ys) h = absurd (ground (arith, h))
bytes_eq_sound (x ∷ xs) [] h = absurd (ground (arith, h))
bytes_eq_sound (x ∷ xs) (y ∷ ys) h =
    ap₂ (◌∷◌) ((==_iff x y).0 (ground (arith, h))) (bytes_eq_sound xs ys (ground (arith, h)))

bytes_eq_refl : (a : Bytes) → bytes_eq a a ≡ true
unfolding bytes_eq
bytes_eq_refl [] = refl
bytes_eq_refl (x ∷ xs) = ground (arith, bytes_eq_refl xs)

bytes_eq_other : (a b : Bytes) → bytes_eq a b ≡ false → a ≢ b
bytes_eq_other a b h e = ground (arith, h, subst (λ c. bytes_eq a c ≡ true) e (bytes_eq_refl a))

abbrev pub mode_word : ConnectionMode → Bytes
mode_word active = active_word
mode_word passive = passive_word

-- A mode is found exactly where its word stands in the text.
find_mode-cases :
    (text : Bytes)
    → ((find_mode text ≡ none)
        × (normal_mode text ≢ active_word)
        × (normal_mode text ≢ passive_word))
      ⊎ ((m : ConnectionMode) × (find_mode text ≡ some m) × (normal_mode text ≡ mode_word m))
unfolding find_mode
find_mode-cases text =
    let n = normal_mode text in
    elim (Bool-cases (bytes_eq n active_word)) [
      | inl a ↦ inr (active, rw (a, find_mode) refl, bytes_eq_sound n active_word a)
      | inr b ↦ elim (Bool-cases (bytes_eq n passive_word)) [
        | inl p ↦ inr (passive, rw (b, p, find_mode) refl, bytes_eq_sound n passive_word p)
        | inr q ↦ inl (
          rw (b, q, find_mode) refl,
          bytes_eq_other n active_word b,
          bytes_eq_other n passive_word q,
        )
      ]
    ]

one_of :
    {text : Bytes} (m : ConnectionMode)
    → text ≡ mode_word m
    → (text ≡ active_word) ⊎ (text ≡ passive_word)
one_of active e = inl e
one_of passive e = inr e

known :
    {text : Bytes} (m : ConnectionMode)
    → text ≡ mode_word m
    → ¬ ((text ≢ active_word) × (text ≢ passive_word))
known active e h = h.0 e
known passive e h = h.1 e

-- The constructor refuses a mode exactly where it is neither active nor passive, blanks around it and
-- upper case allowed, and misses a key exactly where the mode is one of the two and a configuration
-- has no id, host or port. Otherwise the controller that it makes does not run yet and has the mode;
-- its arms have distinct ids and are disconnected, without sockets or threads; and under each id
-- stands the arm of the last configuration with that id, or none where there is no such one.
pub new_controller-IsNew :
    (arms_config : ArmsConfig) (mode listen_host : Bytes)
    → let r = new_controller arms_config mode listen_host in
      let cfgs = normalize_config arms_config in
      ((r ≡ unsupported_mode)
        ↔ ((normal_mode mode ≢ active_word) × (normal_mode mode ≢ passive_word)))
      × ((r ≡ missing_key) ↔ (
          ((normal_mode mode ≡ active_word) ⊎ (normal_mode mode ≡ passive_word))
          × (all_complete cfgs ≡ false)))
      × ((c : ArmController)
          → r ≡ constructed c
          → (c.running ≡ false)
            × (normal_mode mode ≡ mode_word c.connection_mode)
            × Distinct c.arms
            × All IsNew c.arms
            × ((id : ℕ)
                → Dict.get id c.arms ≡ (elim (last_of id cfgs) [
                  | none ↦ none
                  | some cfg ↦ build_arm listen_host cfg
                ])))
unfolding new_controller Dict.get
new_controller-IsNew arms_config mode listen_host =
    let cfgs = normalize_config arms_config in
    elim (find_mode-cases mode) [
      | inl (e, not_active, not_passive) ↦
          rw (e, new_controller)
            (
              (λ h. (not_active, not_passive), λ h. refl),
              (
                λ h. absurd (ground (arith, h)),
                λ h. elim h.0 [ inl a ↦ absurd (not_active a) | inr p ↦ absurd (not_passive p) ],
              ),
              λ c h. absurd (ground (arith, h)),
            )
      | inr (m, e, word) ↦ elim (Option-cases (add_arms listen_host cfgs [])) [
        | inl f ↦
            let lacks : all_complete cfgs ≡ false =
              sym (is_some-add_arms listen_host cfgs []) ∙ ap is_some f in
            rw (e, f, new_controller)
              (
                (λ h. absurd (ground (arith, h)), λ h. absurd (known m word h)),
                (λ h. (one_of m word, lacks), λ h. refl),
                λ c h. absurd (ground (arith, h)),
              )
        | inr (arms, f) ↦
            let has : all_complete cfgs ≡ true =
              sym (is_some-add_arms listen_host cfgs []) ∙ ap is_some f in
            let v = add_arms-IsNew listen_host cfgs [] arms (tt, tt) f in
            let built : ArmController = record {
              arms = arms;
              running = false;
              connection_mode = m;
            } in
            rw (e, f, new_controller)
              (
                (λ h. absurd (ground (arith, h)), λ h. absurd (known m word h)),
                (λ h. absurd (ground (arith, h)), λ h. absurd (ground (arith, has, h.1))),
                λ c h.
                    let same : built ≡ c = cc in
                    subst
                      (λ d.
                        (d.running ≡ false)
                        × (normal_mode mode ≡ mode_word d.connection_mode)
                        × Distinct d.arms
                        × All IsNew d.arms
                        × ((id : ℕ) → Dict.get id d.arms ≡ found_last listen_host id cfgs none))
                      same (refl, word, v.0, v.1, v.2),
              )
      ]
    ]
