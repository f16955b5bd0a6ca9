-- ===== src/Store/Checkpoint/RoundTrip.antt =====
-- A checkpoint that was written is read back, and checkpoints do not disturb one another.
use cheget.Base.{
  ℕ, ◌≡◌, ◌≢◌, inl, inr, refl, sym, ap, ◌∙◌, some, List, [], ◌∷◌, ◌++◌, Text, ok, Result-cases,
  Option-cases, arith, append_injective, cons_injective,
}
use mathlib.Core.List.{append_assoc}
use cheget.Store.Disk.{FilePath, parent, Disk, IsDisk}
use cheget.Store.Atomic.{temp_name, create_dir_secure, write_atomic}
use cheget.Store.Atomic.Laws.{write_atomic_lem}
use cheget.Store.Vault.{Vault, Unseals, encrypt_secret, decrypt_secret, scrypt_log_n}
use cheget.Store.Manifest.{seat_hex}
use cheget.Store.Checkpoint.{
  CheckpointStore, CeremonyId, Codec, ReadsBack, parent_of, ceremony_dir, round_name, round_path,
  put_round, load_round, put_round1, load_round1, put_round2, load_round2,
}

pub parent-append : (xs : FilePath) (x : Text) → parent (xs ++ (x ∷ [])) ≡ some xs
unfolding parent
parent-append [] x = refl
parent-append (a ∷ []) x = refl
parent-append (a ∷ b ∷ xs) x = rw (parent-append (b ∷ xs) x) refl

-- A temporary name is not the name of a checkpoint.
pub temp_name_ne : (suffix rest : Text) → temp_name suffix ≢ (b'r' ∷ rest)
unfolding temp_name
temp_name_ne suffix rest e = omega (arith, (cons_injective e).0)

module _ {SeatId : Type 0} (bytes : SeatId → List ℕ) (D : Disk) (V : Vault) where
  unfoldable pub seat_dir : CheckpointStore V → CeremonyId → SeatId → FilePath
  seat_dir c cid seat = ceremony_dir bytes D V c cid ++ (seat_hex bytes seat ∷ [])

  pub round_path-seat_dir :
      (c : CheckpointStore V) (cid : CeremonyId) (seat : SeatId) (round : ℕ)
      → round_path bytes D V c cid seat round
        ≡ seat_dir c cid seat ++ (round_name bytes D V round ∷ [])
  unfolding round_path seat_dir
  round_path-seat_dir c cid seat round = sym (
      append_assoc (ceremony_dir bytes D V c cid) (seat_hex bytes seat ∷ [])
        (round_name bytes D V round ∷ []))

  pub parent-round_path :
      (c : CheckpointStore V) (cid : CeremonyId) (seat : SeatId) (round : ℕ)
      → parent (round_path bytes D V c cid seat round) ≡ some (seat_dir c cid seat)
  parent-round_path c cid seat round =
      ap parent (round_path-seat_dir c cid seat round)
      ∙ parent-append (seat_dir c cid seat) (round_name bytes D V round)

  temp_ne-round_path :
      (suffix : Text) (c : CheckpointStore V) (cid : CeremonyId) (seat : SeatId) (round : ℕ)
      → seat_dir c cid seat ++ (temp_name suffix ∷ []) ≢ round_path bytes D V c cid seat round
  unfolding round_name
  temp_ne-round_path suffix c cid seat round e =
      let (_, names) =
        append_injective (seat_dir c cid seat) (seat_dir c cid seat) refl
          (e ∙ round_path-seat_dir c cid seat round) in
      temp_name_ne suffix _ (cons_injective names).0

  module _ (law : IsDisk D) (unseals : Unseals V) where
    load_round-put_round :
        (c : CheckpointStore V) (cid : CeremonyId) (seat : SeatId) (round : ℕ) (plaintext : List ℕ)
        (s s' : D.State)
        → put_round bytes D V c cid seat round plaintext s ≡ (ok tt, s')
        → load_round bytes D V c cid seat round s' ≡ (ok plaintext, s')
    unfolding put_round load_round parent_of encrypt_secret decrypt_secret
    load_round-put_round c cid seat round plaintext s s' h = elim (Result-cases V.passphrase) [
      | inr (e, p) ↦ absurd (ground arith)
      | inl (secret, p) ↦ elim (Option-cases (V.seal secret scrypt_log_n c.vault_salt plaintext)) [
        | inl q ↦ absurd (ground arith)
        | inr (ciphertext, q) ↦
            let up = parent-round_path c cid seat round in
            let made = create_dir_secure D (seat_dir c cid seat) s in
            elim (Result-cases made.0) [
              | inr (e, r) ↦ absurd (ground arith)
              | inl (u, r) ↦
                  let path = round_path bytes D V c cid seat round in
                  let out = write_atomic D c.suffix path ciphertext made.1 in
                  let e1 : out ≡ (ok tt, s') = ground arith in
                  elim (write_atomic_lem D law c.suffix (seat_dir c cid seat) path ciphertext made.1
                    up (temp_ne-round_path c.suffix c cid seat round)) [
                      | inr (e, t, _) ↦ absurd (ground arith)
                      | inl t ↦
                          ground
                            (arith, unseals secret scrypt_log_n c.vault_salt plaintext ciphertext q)
                    ]
            ]
      ]
    ]

    -- A round-1 secret that was checkpointed with success is loaded again, from the disk that the
    -- checkpoint left, where the disk, the encryption and the codec do what they document.
    pub load_round1-put_round1 :
        {Package1 Package2 : Type 0} (codec1 : Codec Package1) (codec2 : Codec Package2)
        (c : CheckpointStore V) (cid : CeremonyId) (seat : SeatId) (pkg : Package1) (s s' : D.State)
        → ReadsBack codec1
        → put_round1 bytes D V codec1 codec2 c cid seat pkg s ≡ (ok tt, s')
        → load_round1 bytes D V codec1 codec2 c cid seat s' ≡ (ok pkg, s')
    unfolding put_round1 load_round1
    load_round1-put_round1 codec1 codec2 c cid seat pkg s s' back h =
        elim (Option-cases (codec1.to pkg)) [
          | inl p ↦ absurd (ground arith)
          | inr (plaintext, p) ↦
              ground (arith, load_round-put_round c cid seat 1 plaintext s s', back pkg plaintext p)
        ]

    -- A round-2 secret that was checkpointed with success is loaded again, from the disk that the
    -- checkpoint left, where the disk, the encryption and the codec do what they document.
    pub load_round2-put_round2 :
        {Package1 Package2 : Type 0} (codec1 : Codec Package1) (codec2 : Codec Package2)
        (c : CheckpointStore V) (cid : CeremonyId) (seat : SeatId) (pkg : Package2) (s s' : D.State)
        → ReadsBack codec2
        → put_round2 bytes D V codec1 codec2 c cid seat pkg s ≡ (ok tt, s')
        → load_round2 bytes D V codec1 codec2 c cid seat s' ≡ (ok pkg, s')
    unfolding put_round2 load_round2
    load_round2-put_round2 codec1 codec2 c cid seat pkg s s' back h =
        elim (Option-cases (codec2.to pkg)) [
          | inl p ↦ absurd (ground arith)
          | inr (plaintext, p) ↦
              ground (arith, load_round-put_round c cid seat 2 plaintext s s', back pkg plaintext p)
        ]
