-- ===== src/Tests/Toy.antt =====
-- Toy instances of what the program takes from other packages: identifiers and keys are numbers,
-- and a signature is good if two seats gave a share.
use cheget.Base.{
  ℕ, zero, suc, ◌+◌, refl, ℕ_discrete, true, leb, Option, none, some, List, [], ◌∷◌, map, length,
  get_elem?, Result, ok, err, if◌then◌else◌, ◌==◌, arith,
}
use cheget.Base.OrdMap.{Map, ranked_ℕ}
use cheget.Crypto.Frost.{Frost, RanksIndices, AgreesOnKey}
use cheget.Crypto.Signing.{Signing, KeepsMessage}
use cheget.Chain.{TxOut, TxIn, Transaction, Psbt, Bitcoin}

abbrev pub repeat : ℕ → ℕ → List ℕ
repeat zero x = []
repeat (suc n) x = x ∷ repeat n x

abbrev read_byte : List ℕ → Result ℕ ℕ
read_byte [] = err 0
read_byte (b ∷ bytes) = ok b

abbrev sum_list : List ℕ → ℕ
sum_list [] = 0
sum_list (x ∷ xs) = x + sum_list xs

-- The group key is 7; a key package is its seat and the group key.
abbrev pub toy : Frost
toy = record {
  Identifier = ℕ;
  ranked = ranked_ℕ;
  Error = ℕ;
  Rng = ℕ;
  Round1Secret = ℕ;
  Round1Package = ℕ;
  Round2Secret = ℕ;
  Round2Package = ℕ;
  KeyPackage = ℕ × ℕ;
  PublicKeyPackage = ℕ;
  VerifyingKey = ℕ;
  vk_dec = ℕ_discrete;
  to_identifier = λ i. if i == 0 then none else some i;
  part1 = λ id max min rng. (ok (id, id), rng + 1);
  part2 = λ secret others. ok (secret, map (λ e. (e.0, secret)) others);
  part3 = λ secret others mine. ok ((secret, 7), 7);
  key_even_y = λ kp. kp;
  group_even_y = λ g. g;
  key_vk = λ kp. kp.1;
  group_vk = λ g. g;
}

pub toy-RanksIndices : RanksIndices toy
toy-RanksIndices i a h = ground arith

pub toy-AgreesOnKey : AgreesOnKey toy
toy-AgreesOnKey s p q kp g h = ground arith

abbrev pub toy_signing : Signing toy
toy_signing = record {
  Nonces = ℕ;
  Commitments = ℕ;
  Share = ℕ;
  Package = Map ℕ ℕ × List ℕ;
  Signature = ℕ;
  commit = λ kp rng. ((rng, rng), rng + 1);
  commitments_to = λ c. ok (c ∷ []);
  commitments_from = read_byte;
  share_to = λ s. s ∷ [];
  share_from = read_byte;
  new_package = λ c m. (c, m);
  message = λ p. p.1;
  sign_with_tweak = λ p n kp. ok n;
  aggregate_with_tweak = λ p shares g. ok (length shares);
  culprits = λ e. [];
  tweak = λ g. g + 1;
  verify = λ vk m sig. leb 2 sig;
  signature_to = λ sig. ok (repeat 64 sig);
  has_even_y = λ vk. true;
  vk_to = λ vk. some (repeat 33 vk);
  XOnly = ℕ;
  xonly_from = λ bytes. some 0;
}

pub toy-KeepsMessage : KeepsMessage toy_signing
toy-KeepsMessage c m = refl

-- The sighash is the index and the number of the outputs spent.
abbrev pub toy_sighash : Transaction → ℕ → List TxOut → Option (List ℕ)
toy_sighash tx i outs = elim (get_elem? tx.input i) [
  | none ↦ none
  | some txin ↦ some (i ∷ length outs ∷ [])
]

abbrev pub toy_bitcoin : Bitcoin
toy_bitcoin = record {
  Network = Unit {0};
  sum_amounts = sum_list;
  address_from_script = λ script network. some script;
  taproot_sighash = toy_sighash;
}

abbrev pub coin : TxOut
coin = record { value = 50; script_pubkey = [] }

abbrev pub unsigned_input : TxIn
unsigned_input = record { previous_output = []; sequence = 0; witness = [] }

abbrev pub signed_input : TxIn
signed_input = record { previous_output = []; sequence = 0; witness = repeat 64 2 ∷ [] }

-- A transaction of two inputs and one output.
abbrev pub payment : TxIn → Transaction
payment txin = record {
  version = 2;
  lock_time = 0;
  input = txin ∷ txin ∷ [];
  output = record { value = 90; script_pubkey = [] } ∷ [];
}

abbrev pub two_inputs : Psbt
two_inputs = record { unsigned_tx = payment unsigned_input; inputs = some coin ∷ some coin ∷ [] }
