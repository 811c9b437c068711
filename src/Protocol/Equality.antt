-- ===== src/Protocol/Equality.antt =====
-- protocol/src/lib.rs: the equality that the manifests derive.
use native.Mathlib.Decide.{ℕ_discrete}
use servatory.Prelude.{◌≡◌, ◌≢◌, Bool, true, false}
use servatory.Protocol.Display.{DisplayConfig}
use servatory.Protocol.Network.{NetworkConfig}

pub DisplayConfig-discrete : Discrete DisplayConfig
DisplayConfig-discrete = hlevel (ℕ_discrete)

pub NetworkConfig-discrete : Discrete NetworkConfig
NetworkConfig-discrete = hlevel (ℕ_discrete)

-- `==` of a type whose equality is decided.
abbrev pub same : {A : Type 0} → Discrete A → A → A → Bool
same d a b = elim (d a b) [ yes e ↦ true | no n ↦ false ]

pub eq_of_same : {A : Type 0} (d : Discrete A) (a b : A) → same d a b ≡ true → a ≡ b
eq_of_same d a b h =
    elim (d a b) as (λ x. elim x [ yes e ↦ true | no n ↦ false ] ≡ true → a ≡ b) [
      | yes e ↦ λ k. e
      | no n ↦ λ k. cc
    ]
      h

pub ne_of_same : {A : Type 0} (d : Discrete A) (a b : A) → same d a b ≡ false → a ≢ b
ne_of_same d a b h =
    elim (d a b) as (λ x. elim x [ yes e ↦ true | no n ↦ false ] ≡ false → a ≢ b) [
      | yes e ↦ λ k. cc
      | no n ↦ λ k. n
    ]
      h
