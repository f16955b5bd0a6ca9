-- ===== src/Crypto/Frost.antt =====
-- The package `frost-secp256k1-tr`, as the program uses it: its types are unknown, and its
-- operations are functions on them. The generator of random numbers is a state.
use cheget.Base.{ℕ, ◌≡◌, Option, some, Result, ok}
use cheget.Base.OrdMap.{Map, Ranked}

pub record Frost : Type 1 where
  pub Identifier : Type 0
  pub ranked : Ranked Identifier
  pub Error : Type 0
  pub Rng : Type 0
  pub Round1Secret : Type 0
  pub Round1Package : Type 0
  pub Round2Secret : Type 0
  pub Round2Package : Type 0
  pub KeyPackage : Type 0
  pub PublicKeyPackage : Type 0
  pub VerifyingKey : Type 0
  pub vk_dec : Discrete VerifyingKey
  -- `u16::try_into`
  pub to_identifier : ℕ → Option Identifier
  pub part1 : Identifier → ℕ → ℕ → Rng → Result Error (Round1Secret × Round1Package) × Rng
  pub part2 :
      Round1Secret
      → Map Identifier Round1Package
      → Result Error (Round2Secret × Map Identifier Round2Package)
  pub part3 :
      Round2Secret
      → Map Identifier Round1Package
      → Map Identifier Round2Package
      → Result Error (KeyPackage × PublicKeyPackage)
  -- `into_even_y(None)` and `verifying_key()` of the two packages
  pub key_even_y : KeyPackage → KeyPackage
  pub group_even_y : PublicKeyPackage → PublicKeyPackage
  pub key_vk : KeyPackage → VerifyingKey
  pub group_vk : PublicKeyPackage → VerifyingKey

-- Identifiers made from `u16` indices are scalars, ordered as the indices are.
abbrev pub RanksIndices : Frost → Type 0
RanksIndices F = (i : ℕ) (a : F.Identifier) → F.to_identifier i ≡ some a → F.ranked.rank a ≡ i

-- The key package and the group package that one seat derives carry one verifying key, also after
-- both are normalized.
abbrev pub AgreesOnKey : Frost → Type 0
AgreesOnKey F =
    (s : F.Round2Secret) (p : Map F.Identifier F.Round1Package)
    (q : Map F.Identifier F.Round2Package) (kp : F.KeyPackage) (g : F.PublicKeyPackage)
    → F.part3 s p q ≡ ok (kp, g)
    → F.key_vk (F.key_even_y kp) ≡ F.group_vk (F.group_even_y g)
