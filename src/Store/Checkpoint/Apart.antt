-- ===== src/Store/Checkpoint/Apart.antt =====
-- A checkpoint leaves every other one as it was, whether or not its write succeeds.
use cheget.Base.{
  ℕ, ◌≡◌, ◌≢◌, inl, inr, refl, sym, ap, ◌∙◌, List, [], ◌∷◌, ◌++◌, Text, ok, Result-cases,
  Option-cases, Bool-cases, arith, cons_injective,
}
use cheget.Store.Disk.{FilePath, Disk, IsDisk}
use cheget.Store.Atomic.{temp_name, create_dir_secure}
use cheget.Store.Atomic.Laws.{write_atomic-elsewhere}
use cheget.Store.Vault.{Vault, encrypt_secret, scrypt_log_n}
use cheget.Store.Manifest.{seat_hex}
use cheget.Store.Checkpoint.{
  CheckpointStore, CeremonyId, ceremonies_dir, parent_of, round_name, round_path, put_round,
  load_round,
}
use cheget.Store.Checkpoint.RoundTrip.{
  temp_name_ne, seat_dir, round_path-seat_dir, parent-round_path,
}

-- The last component of a path.
pub last : FilePath → Text
last [] = []
last (x ∷ []) = x
last (x ∷ y ∷ rest) = last (y ∷ rest)

pub last-append : (xs : FilePath) (x : Text) → last (xs ++ (x ∷ [])) ≡ x
unfolding last
last-append [] x = refl
last-append (a ∷ []) x = refl
last-append (a ∷ b ∷ xs) x = last-append (b ∷ xs) x

-- Paths of one shape under one root differ in one of the parts in which they are free.
under_root :
    (root : FilePath) (x a a' b b' n n' : Text)
    → (root ++ x ∷ a ∷ []) ++ b ∷ n ∷ [] ≡ (root ++ x ∷ a' ∷ []) ++ b' ∷ n' ∷ []
    → (a ≡ a') × (b ≡ b') × (n ≡ n')
under_root [] x a a' b b' n n' e =
    let (p, q) = cons_injective (cons_injective e).1 in
    let (r, s) = cons_injective q in (p, r, (cons_injective s).0)
under_root (y ∷ root) x a a' b b' n n' e = under_root root x a a' b b' n n' (cons_injective e).1

module _ {SeatId : Type 0} (bytes : SeatId → List ℕ) (D : Disk) (V : Vault) where
  temp_ne-other_path :
      (suffix : Text) (c : CheckpointStore V) (cid other : CeremonyId) (seat seat' : SeatId)
      (round : ℕ)
      → seat_dir bytes D V c cid seat ++ (temp_name suffix ∷ [])
        ≢ round_path bytes D V c other seat' round
  unfolding round_name
  temp_ne-other_path suffix c cid other seat seat' round e = temp_name_ne suffix _ (
      sym (last-append (seat_dir bytes D V c cid seat) (temp_name suffix))
      ∙ ap last (e ∙ round_path-seat_dir bytes D V c other seat' round)
      ∙ last-append (seat_dir bytes D V c other seat') (round_name bytes D V round))

  -- The path of a checkpoint determines its ceremony, its seat and its file name.
  round_path_injective :
      (c : CheckpointStore V) (cid other : CeremonyId) (seat seat' : SeatId) (round round' : ℕ)
      → round_path bytes D V c cid seat round ≡ round_path bytes D V c other seat' round'
      → (cid ≡ other)
        × (seat_hex bytes seat ≡ seat_hex bytes seat')
        × (round_name bytes D V round ≡ round_name bytes D V round')
  unfolding round_path
  round_path_injective c cid other seat seat' round round' e =
      under_root c.root ceremonies_dir cid other (seat_hex bytes seat) (seat_hex bytes seat')
        (round_name bytes D V round) (round_name bytes D V round') e

  pub create_dir-keeps :
      IsDisk D
      → (dir q : FilePath) (s : D.State) (content : List ℕ) → D.read q s ≡ ok content
      → D.read q (create_dir_secure D dir s).1 ≡ ok content
  unfolding create_dir_secure
  create_dir-keeps law dir q s content h = elim (Bool-cases (D.is_dir dir s)) [
    | inl p ↦ ground arith
    | inr p ↦ ground (arith, law.create_keeps dir q s content h)
  ]

  -- A checkpoint that is loaded before another one is written, with success or not, is loaded after
  -- it too, if the two differ in ceremony, seat or file name, on a disk that does what it
  -- documents.
  pub load_round-put_round_other :
      (c : CheckpointStore V) (cid other : CeremonyId) (seat seat' : SeatId) (round round' : ℕ)
      (plaintext held : List ℕ) (s : D.State)
      → IsDisk D
      → ((cid ≡ other)
            × (seat_hex bytes seat ≡ seat_hex bytes seat')
            × (round_name bytes D V round ≡ round_name bytes D V round')
          → ⊥)
      → (load_round bytes D V c other seat' round' s).0 ≡ ok held
      → (load_round bytes D V c other seat' round'
          (put_round bytes D V c cid seat round plaintext s).1).0
        ≡ ok held
  unfolding put_round load_round parent_of encrypt_secret
  load_round-put_round_other c cid other seat seat' round round' plaintext held s law apart h =
      let path = round_path bytes D V c cid seat round in
      let there = round_path bytes D V c other seat' round' in
      let ne : path ≢ there =
        λ e. apart (round_path_injective c cid other seat seat' round round' e) in
      let up = parent-round_path bytes D V c cid seat round in
      let made = create_dir_secure D (seat_dir bytes D V c cid seat) s in
      elim (Result-cases V.passphrase) [
        | inr (e, p) ↦ absurd (ground arith)
        | inl (secret, p) ↦ elim (Result-cases (D.read there s)) [
          | inr (e, q) ↦ absurd (ground arith)
          | inl (sealed, q) ↦
              let kept = create_dir-keeps law (seat_dir bytes D V c cid seat) there s sealed q in
              elim (Option-cases (V.seal secret scrypt_log_n c.vault_salt plaintext)) [
                | inl r ↦ ground arith
                | inr (ciphertext, r) ↦ elim (Result-cases made.0) [
                  | inr (e, t) ↦ ground arith
                  | inl (u, t) ↦ ground (
                    arith,
                    write_atomic-elsewhere D law c.suffix (seat_dir bytes D V c cid seat) path there
                        ciphertext made.1 up
                        (temp_ne-other_path c.suffix c cid other seat seat' round') ne,
                  )
                ]
              ]
        ]
      ]
