-- ===== src/Cli/Sign/Delivered.antt =====
-- What the handler of `sign` delivers (src/cli/sign.rs), down to the signatures.
use cheget.Base.{
  ℕ, ◌≡◌, ◌⊎◌, inl, inr, refl, some, List, true, false, Text, get_elem?, ok, Result-cases,
  Option-cases, Bool-cases, arith,
}
use cheget.Base.Effects.{◌>>=◌, >>=-eq-ok, Keeps, Keeps->>=}
use cheget.Base.OrdMap.{Map}
use cheget.Crypto.Frost.{Frost}
use cheget.Crypto.Signing.{Signing, KeepsMessage}
use cheget.Chain.{TxIn, Transaction, Psbt, Bitcoin}
use cheget.Transport.Trait.{in_memory}
use cheget.Transport.InMemory
use cheget.Session.Core.{World, Session, new, preview}
use cheget.Session.Rounds
use cheget.Session.Attach.{strip}
use cheget.Session.Signed.{Signed, run-strip, run-Signed}
use cheget.Store.Disk.{FilePath, Disk}
use cheget.Store.Vault.{Vault}
use cheget.Cli.{resolve_root, acquire_store_passphrase}
use cheget.Cli.Keygen.{resolved}
use cheget.Cli.Loaded.{load_persisted_shares-state}
use cheget.Cli.System.{Machine, System, draws_for}
use cheget.Cli.Sign.Run.{
  stored_keys, simulated_keys, SignArgs, sign_tn, is_ack, read_psbt, check_pair, keys_of,
  group_address, session_of, authorize, prompt_ack, sign_session, begin_session, checked_session,
  run_sign,
}

module _ (F : Frost) (S : Signing F) (B : Bitcoin) (D : Disk) (V : Vault) (Terminal : Type 0)
    (sys : System F S B D V Terminal) where
  -- The spend was authorized: by the flag, or by a word at the prompt in the state `w`.
  abbrev pub Authorized : SignArgs → Machine F D Terminal → Type 0
  Authorized args w =
      (args.yes_flag ≡ true)
      ⊎ ((line : Text) × ((sys.read_line w.terminal).0 ≡ ok line) × (is_ack (sys.trim line) ≡ true))

  authorize-Authorized :
      (args : SignArgs) (w w' : Machine F D Terminal)
      → authorize F S B D V Terminal sys args w ≡ (ok tt, w')
      → Authorized args w
  unfolding authorize prompt_ack
  authorize-Authorized args w w' h = elim (Bool-cases args.yes_flag) [
    | inl e ↦ inl e
    | inr e ↦ elim (Result-cases (sys.read_line w.terminal).0) [
      | inr (k, p) ↦ absurd (ground arith)
      | inl (line, p) ↦ inr (line, p, ground arith)
    ]
  ]

  -- The steps of a successful run: from the PSBT, through the keys of the command and its prompt, to
  -- the session that was run.
  abbrev pub Delivers : SignArgs → Machine F D Terminal → Transaction → Type 0
  Delivers args w tx =
      (path : FilePath) × (raw : List ℕ) × (psbt : Psbt) × (keys : Map F.Identifier F.KeyPackage
        × F.PublicKeyPackage)
      × (unlocked : Machine F D Terminal) × (args.psbt ≡ some path)
      × (D.read path w.disk ≡ ok raw)
      × (sys.psbt_from raw ≡ some psbt)
      × (keys_of F S B D V Terminal sys args (sign_tn args).0 (sign_tn args).1 w
          ≡ (ok keys, unlocked))
      × Authorized args unlocked
      × (strip tx ≡ strip psbt.unsigned_tx)
      × ((j : ℕ) (txin : TxIn)
          → get_elem? tx.input j ≡ some txin
          → Signed F S in_memory B
              (session_of F S B D V Terminal sys args keys psbt (sign_tn args).0) j txin)

  read_psbt-eq-ok :
      (path : FilePath) (psbt : Psbt) (w w' : Machine F D Terminal)
      → read_psbt F S B D V Terminal sys path w ≡ (ok psbt, w')
      → (raw : List ℕ) × (D.read path w.disk ≡ ok raw) × (sys.psbt_from raw ≡ some psbt) × (w' ≡ w)
  unfolding read_psbt
  read_psbt-eq-ok path psbt w w' h = elim (Result-cases (D.read path w.disk)) [
    | inr (e, p) ↦ absurd (ground arith)
    | inl (raw, p) ↦ elim (Option-cases (sys.psbt_from raw)) [
      | inl q ↦ absurd (ground arith)
      | inr (found, q) ↦ (raw, p, ground arith, ground arith)
    ]
  ]

  sign_session-run :
      (s : Session F B) (tx : Transaction) (w w' : Machine F D Terminal)
      → sign_session F S B D V Terminal sys s w ≡ (ok tx, w')
      → (s' : Session F B) × (v v' : World F in_memory) × (Rounds.run F S in_memory B s true v
          ≡ (s', ok tx, v'))
  unfolding sign_session in_memory InMemory.new
  sign_session-run s tx w w' h =
      let v : World F in_memory = record { board = InMemory.new; rng = w.rng } in
      let out = Rounds.run F S in_memory B s true v in
      elim (Result-cases out.1) [
        | inr (e, p) ↦ absurd (ground arith)
        | inl (made, p) ↦ (out.0, v, out.2, ground arith)
      ]

  checked_session-made :
      (args : SignArgs) (keys : Map F.Identifier F.KeyPackage × F.PublicKeyPackage) (psbt : Psbt)
      (t : ℕ) (s : Session F B)
      → checked_session F S B D V Terminal sys args keys psbt t ≡ ok s
      → s ≡ session_of F S B D V Terminal sys args keys psbt t
  unfolding checked_session
  checked_session-made args keys psbt t s h =
      let made = session_of F S B D V Terminal sys args keys psbt t in
      elim (Result-cases (group_address F S B D V Terminal sys args keys.1)) [
        | inr (e, p) ↦ absurd (ground arith)
        | inl (a, p) ↦ elim (Result-cases (preview F B made)) [
          | inr (e, q) ↦ absurd (ground arith)
          | inl (shown, q) ↦ let same : s ≡ made = ground arith in same
        ]
      ]

  check_pair-tn :
      (args : SignArgs) (pair : ℕ × ℕ)
      → check_pair F S B D V Terminal sys args ≡ ok pair
      → pair ≡ sign_tn args
  unfolding check_pair
  check_pair-tn args pair h = ground arith

  -- The steps of `begin_session`, with what each of them found.
  abbrev Begins : SignArgs → Machine F D Terminal → Machine F D Terminal → Session F B → Type 0
  Begins args w w' s =
      (path : FilePath) × (raw : List ℕ) × (psbt : Psbt) × (keys : Map F.Identifier F.KeyPackage
        × F.PublicKeyPackage)
      × (args.psbt ≡ some path)
      × (D.read path w.disk ≡ ok raw)
      × (sys.psbt_from raw ≡ some psbt)
      × (keys_of F S B D V Terminal sys args (sign_tn args).0 (sign_tn args).1 w ≡ (ok keys, w'))
      × (s ≡ session_of F S B D V Terminal sys args keys psbt (sign_tn args).0)

  begin_session-eq-ok :
      (args : SignArgs) (w w' : Machine F D Terminal) (s : Session F B)
      → begin_session F S B D V Terminal sys args w ≡ (ok s, w')
      → Begins args w w' s
  unfolding begin_session
  begin_session-eq-ok args w w' s h = elim (Option-cases args.psbt) [
    | inl e ↦ absurd (ground arith)
    | inr (path, there) ↦
        let read = read_psbt F S B D V Terminal sys path w in
        elim (Result-cases read.0) [
          | inr (e, p) ↦ absurd (ground arith)
          | inl (psbt, p) ↦ elim (Result-cases (check_pair F S B D V Terminal sys args)) [
            | inr (e, q) ↦ absurd (ground arith)
            | inl (pair, q) ↦
                let (raw, r0, r1, stays) = read_psbt-eq-ok path psbt w read.1 (ground arith) in
                let same = check_pair-tn args pair q in
                let got = keys_of F S B D V Terminal sys args pair.0 pair.1 read.1 in
                elim (Result-cases got.0) [
                  | inr (e, r) ↦ absurd (ground arith)
                  | inl (keys, r) ↦
                      let there' : got ≡ (ok keys, w') = ground arith in
                      let made = checked_session-made args keys psbt pair.0 s (ground arith) in
                      (
                        path,
                        raw,
                        psbt,
                        keys,
                        there,
                        r0,
                        r1,
                        rw (← same) (rw (← stays) there'),
                        rw (← same) made,
                      )
                ]
          ]
        ]
  ]

  -- If the command `sign` succeeds, then it read a PSBT from the file of its argument and got its
  -- key packages and its group from `keys_of`, from the store or by a key generation, for the
  -- threshold and the membership of its arguments; the spend was authorized, by the flag or by one
  -- of the four words at the prompt that followed; the transaction it prints is that of the PSBT in
  -- all but the witnesses; and each of its inputs carries one signature of 64 bytes that verifies
  -- under the output key of that group over the sighash that the session of these keys computes for
  -- that input, where a signing package keeps the message it is made of.
  pub run_sign-Delivers :
      (args : SignArgs) (w w' : Machine F D Terminal) (tx : Transaction)
      → KeepsMessage S
      → run_sign F S B D V Terminal sys args w ≡ (ok tx, w')
      → Delivers args w tx
  unfolding run_sign session_of new
  run_sign-Delivers args w w' tx law h =
      let signing = sign_session F S B D V Terminal sys in
      let asks = authorize F S B D V Terminal sys args in
      let begins = begin_session F S B D V Terminal sys args in
      let (s, w1, p1, h1) = >>=-eq-ok begins (λ s w. (◌>>=◌ asks (λ u. signing s)) w) w w' tx h in
      let (u, w2, p2, h2) = >>=-eq-ok asks (λ u. signing s) w1 w' tx h1 in
      let (path, raw, psbt, keys, q, r0, r1, got, same) = begin_session-eq-ok args w w1 s p1 in
      let made = session_of F S B D V Terminal sys args keys psbt (sign_tn args).0 in
      let (s', v, v', ran) = sign_session-run made tx w2 w' (rw (← same) h2) in
      (
        path,
        raw,
        psbt,
        keys,
        w1,
        q,
        r0,
        r1,
        got,
        authorize-Authorized args w1 w2 p2,
        run-strip F S in_memory B made s' true tx v v' ran,
        λ j txin g. run-Signed F S in_memory B made s' true tx v v' j txin law ran g,
      )

  keys_of-disk :
      (args : SignArgs) (t n : ℕ) → Keeps (λ w. w.disk) (keys_of F S B D V Terminal sys args t n)
  unfolding keys_of stored_keys simulated_keys
  keys_of-disk args t n w = elim (Bool-cases args.is_persist) [
    | inr e ↦ ground arith
    | inl e ↦ elim (Result-cases (resolve_root sys.to_path sys.home_var sys.home_dir args.base)) [
      | inr (x, p) ↦ ground arith
      | inl (base, p) ↦
          let asked = acquire_store_passphrase sys.prompt_password false w.terminal in
          elim (Result-cases asked.0) [
            | inr (x, q) ↦ ground arith
            | inl (typed, q) ↦ ground (
              arith,
              load_persisted_shares-state F sys.bytes sys.from_bytes D
                  (resolved V (sys.to_secret typed)) sys.formats
                  (draws_for V (sys.to_secret typed) (sys.draws 0)) sys.read_dir base t w.disk,
            )
          ]
    ]
  ]

  begin_session-disk :
      (args : SignArgs) → Keeps (λ w. w.disk) (begin_session F S B D V Terminal sys args)
  unfolding begin_session read_psbt
  begin_session-disk args w = elim (Option-cases args.psbt) [
    | inl e ↦ ground arith
    | inr (path, there) ↦ elim (Result-cases (D.read path w.disk)) [
      | inr (e, p) ↦ ground arith
      | inl (raw, p) ↦ elim (Option-cases (sys.psbt_from raw)) [
        | inl q ↦ ground arith
        | inr (psbt, q) ↦ elim (Result-cases (check_pair F S B D V Terminal sys args)) [
          | inr (e, r) ↦ ground arith
          | inl (pair, r) ↦
              let got = keys_of F S B D V Terminal sys args pair.0 pair.1 w in
              let same = keys_of-disk args pair.0 pair.1 w in
              elim (Result-cases got.0) [ inr (e, u) ↦ ground arith | inl (keys, u) ↦ ground arith ]
        ]
      ]
    ]
  ]

  signing-disk : (s : Session F B) → Keeps (λ w. w.disk) (sign_session F S B D V Terminal sys s)
  unfolding sign_session
  signing-disk s w = refl

  authorize-disk : (args : SignArgs) → Keeps (λ w. w.disk) (authorize F S B D V Terminal sys args)
  unfolding authorize
  authorize-disk args w = ground arith

  -- Whether it succeeds or fails, and from the store or not, the command `sign` leaves the disk as
  -- it is.
  pub run_sign-disk :
      (args : SignArgs) (w : Machine F D Terminal)
      → (run_sign F S B D V Terminal sys args w).1.disk ≡ w.disk
  unfolding run_sign
  run_sign-disk args =
      let signing = sign_session F S B D V Terminal sys in
      let asks = authorize F S B D V Terminal sys args in
      let disk = λ (w : Machine F D Terminal). w.disk in
      Keeps->>= disk (begin_session F S B D V Terminal sys args)
        (λ s w. (◌>>=◌ asks (λ u. signing s)) w) (begin_session-disk args)
        (λ s. Keeps->>= disk asks (λ u. signing s) (authorize-disk args) (λ u. signing-disk s))
