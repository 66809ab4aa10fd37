-- ===== src/Arms/Built.antt =====
-- The arms that `_build_arm` and the constructor's loop make of the configurations.
use model_lib.Prelude.{
  ◌>>=◌, subst, ℕ, ◌≡◌, refl, sym, ap, ◌∙◌, ==_iff, Bool, true, false, ◌&&◌, List, [], ◌∷◌, Option,
  none, some, ◌==◌, if◌then◌else◌, is_some, All, arith, Option-cases, Bool-cases, inl, inr, opt_eq,
}
use model_lib.Dict
use model_lib.Dict.{get-put}
use model_lib.Dict.Distinct.{Distinct, Distinct-put, All-put}
use model_lib.Text.{Bytes}
use model_lib.Arms.Link.{ArmInfo, ConnectionMode}
use model_lib.Arms.Reach.{Reach, initial, new_arm}
use model_lib.Arms.Controller.{ArmConfig, build_arm, add_arms, with_default, default_name}

-- The id, the host and the port are there.
abbrev pub is_complete : ArmConfig → Bool
is_complete cfg = is_some cfg.id && (is_some cfg.host && is_some cfg.port)

unfoldable pub all_complete : List ArmConfig → Bool
all_complete [] = true
all_complete (cfg ∷ cfgs) = is_complete cfg && all_complete cfgs

-- The last configuration with an id.
unfoldable pub last_of : ℕ → List ArmConfig → Option ArmConfig
last_of id [] = none
last_of id (cfg ∷ cfgs) =
    let rest = last_of id cfgs in
    if is_some rest then rest else if opt_eq cfg.id id then some cfg else none

-- An arm as the constructor leaves it, under its own id: disconnected, without sockets or threads.
abbrev pub IsNew : ℕ × ArmInfo → Type 0
IsNew e = e.1 ≡ new_arm e.0 e.1.host e.1.port e.1.name e.1.bind_host

pub IsNew-Reach :
    (mode : ConnectionMode) (id : ℕ) (arm : ArmInfo) → IsNew (id, arm) → Reach mode [] [] arm
IsNew-Reach mode id arm h =
    subst (λ a. Reach mode [] [] a) (sym h) (initial id arm.host arm.port arm.name arm.bind_host)

-- `build_arm` with the values of the configuration.
built_of : Option ℕ → Option Bytes → Option ℕ → (ℕ → Bytes) → Bytes → Option ArmInfo
built_of id host port name bind_host =
    id >>= λ i. host >>= λ h. port >>= λ p. some (new_arm i h p (name i) bind_host)

built_of-some :
    (id : Option ℕ) (host : Option Bytes) (port : Option ℕ) (name : ℕ → Bytes) (bind_host : Bytes)
    (arm : ArmInfo)
    → built_of id host port name bind_host ≡ some arm
    → (id ≡ some arm.id) × IsNew (arm.id, arm)
unfolding built_of new_arm
built_of-some none host port name bind_host arm e = absurd (ground (arith, e))
built_of-some (some i) none port name bind_host arm e = absurd (ground (arith, e))
built_of-some (some i) (some h) none name bind_host arm e = absurd (ground (arith, e))
built_of-some (some i) (some h) (some p) name bind_host arm e =
    let same : new_arm i h p (name i) bind_host ≡ arm = cc in
    subst (λ a. (some i ≡ some a.id) × IsNew (a.id, a)) same (refl, refl)

is_some-built_of :
    (id : Option ℕ) (host : Option Bytes) (port : Option ℕ) (name : ℕ → Bytes) (bind_host : Bytes)
    → is_some (built_of id host port name bind_host)
      ≡ (is_some id && (is_some host && is_some port))
unfolding built_of
is_some-built_of none host port name bind_host = refl
is_some-built_of (some i) none port name bind_host = refl
is_some-built_of (some i) (some h) none name bind_host = refl
is_some-built_of (some i) (some h) (some p) name bind_host = refl

build_arm-some :
    (listen_host : Bytes) (cfg : ArmConfig) (arm : ArmInfo)
    → build_arm listen_host cfg ≡ some arm
    → (cfg.id ≡ some arm.id) × IsNew (arm.id, arm)
unfolding build_arm built_of
build_arm-some listen_host cfg arm h =
    built_of-some cfg.id cfg.host cfg.port (λ i. with_default cfg.name (default_name i))
      (with_default cfg.bind_host listen_host) arm h

is_some-build_arm :
    (listen_host : Bytes) (cfg : ArmConfig) → is_some (build_arm listen_host cfg) ≡ is_complete cfg
unfolding build_arm built_of
is_some-build_arm listen_host cfg =
    is_some-built_of cfg.id cfg.host cfg.port (λ i. with_default cfg.name (default_name i))
      (with_default cfg.bind_host listen_host)

pub is_some-add_arms :
    (listen_host : Bytes) (cfgs : List ArmConfig) (arms : Dict.Dict ArmInfo)
    → is_some (add_arms listen_host cfgs arms) ≡ all_complete cfgs
unfolding add_arms all_complete
is_some-add_arms listen_host [] arms = refl
is_some-add_arms listen_host (cfg ∷ cfgs) arms = elim (Option-cases (build_arm listen_host cfg)) [
  | inl absent ↦
      let lacks : is_complete cfg ≡ false =
        sym (is_some-build_arm listen_host cfg) ∙ ap is_some absent in
      rw (absent, lacks) refl
  | inr (arm, built) ↦
      let has : is_complete cfg ≡ true =
        sym (is_some-build_arm listen_host cfg) ∙ ap is_some built in
      rw (built, has) (is_some-add_arms listen_host cfgs (Dict.put arm.id arm arms))
]

-- What the arms are once the configurations were gone through.
abbrev pub found_last : Bytes → ℕ → List ArmConfig → Option ArmInfo → Option ArmInfo
found_last listen_host id cfgs before = elim (last_of id cfgs) [
  | none ↦ before
  | some cfg ↦ build_arm listen_host cfg
]

found_last-cons :
    (listen_host : Bytes) (id : ℕ) (cfg : ArmConfig) (cfgs : List ArmConfig) (arm : ArmInfo)
    (arms : Dict.Dict ArmInfo)
    → cfg.id ≡ some arm.id
    → build_arm listen_host cfg ≡ some arm
    → found_last listen_host id cfgs (Dict.get id (Dict.put arm.id arm arms))
      ≡ found_last listen_host id (cfg ∷ cfgs) (Dict.get id arms)
unfolding last_of
found_last-cons listen_host id cfg cfgs arm arms id_is built =
    elim (Option-cases (last_of id cfgs)) [
      | inr (later, e) ↦ ground (arith, e)
      | inl e ↦ elim (Bool-cases (arm.id == id)) [
        | inl own ↦ ground (arith, e, id_is, own, get-put arm.id id arm arms, built)
        | inr other ↦ ground (arith, e, id_is, other, get-put arm.id id arm arms)
      ]
    ]

pub add_arms-IsNew :
    (listen_host : Bytes) (cfgs : List ArmConfig) (arms all : Dict.Dict ArmInfo)
    → Distinct arms × All IsNew arms
    → add_arms listen_host cfgs arms ≡ some all
    → Distinct all
      × All IsNew all
      × ((id : ℕ) → Dict.get id all ≡ found_last listen_host id cfgs (Dict.get id arms))
unfolding add_arms last_of
add_arms-IsNew listen_host [] arms all v h =
    let same : arms ≡ all = cc in
    subst (λ d. Distinct d × All IsNew d × ((id : ℕ) → Dict.get id d ≡ Dict.get id arms)) same
      (v.0, v.1, λ id. refl)
add_arms-IsNew listen_host (cfg ∷ cfgs) arms all v h =
    elim (Option-cases (build_arm listen_host cfg)) [
      | inl absent ↦
          let e : none ≡ some all =
            (ap (λ o. o >>= λ arm. add_arms listen_host cfgs (Dict.put arm.id arm arms))
                (sym absent)
              ∙ h) in
          absurd (ground (arith, e))
      | inr (arm, built) ↦
          let rest : add_arms listen_host cfgs (Dict.put arm.id arm arms) ≡ some all =
            (ap (λ o. o >>= λ a. add_arms listen_host cfgs (Dict.put a.id a arms)) (sym built)
              ∙ h) in
          let (id_is, new) = build_arm-some listen_host cfg arm built in
          let (distinct, fresh, found) =
            add_arms-IsNew listen_host cfgs (Dict.put arm.id arm arms) all
              (
                Distinct-put arm.id arm arms v.0,
                All-put IsNew arm.id arm arms
                    (λ j e. subst (λ k. IsNew (k, arm)) (sym ((==_iff j arm.id).0 e)) new) v.1,
              )
              rest in
          (
            distinct,
            fresh,
            λ id. found id ∙ found_last-cons listen_host id cfg cfgs arm arms id_is built,
          )
    ]
