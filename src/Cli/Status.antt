-- ===== src/Cli/Status.antt =====
-- src/cli/mod.rs: the handlers of `participant share-status` and `coordinator roster`. What they
-- print is a list of lines.
use cheget.Base.{suc, Option, none, some, List, [], ◌∷◌, ◌++◌, map, Text, codes, Result}
use cheget.Base.Decimal.{decimal}
use cheget.Base.Int.{ℤ, pos, negsuc}
use cheget.Base.Effects.{M, pure, lift, ◌>>=◌}
use cheget.Crypto.Frost.{Frost}
use cheget.Crypto.Signing.{Signing}
use cheget.Chain.{Bitcoin}
use cheget.Store.Errors.{StoreError}
use cheget.Store.Disk.{FilePath, Disk}
use cheget.Store.Vault.{Vault}
use cheget.Store.Manifest.{ShareEntry, ShareState, active, standby, retired}
use cheget.Store.Participant.{ParticipantStore, load_manifest}
use cheget.Coordinator.Sql.{SqlError, Engine}
use cheget.Coordinator.Rows.{RosterEntry}
use cheget.Coordinator.Store.{default_db_path, open_store, list_roster}
use cheget.Cli.{resolve_root}
use cheget.Cli.System.{Machine, System}

unfoldable pub state_text : ShareState → Text
state_text active = codes "Active"
state_text standby = codes "Standby"
state_text retired = codes "Retired"

unfoldable pub share_line : ShareEntry → Text
share_line e = e.key_id ++ 9 ∷ (decimal e.epoch ++ 9 ∷ (e.seat ++ 9 ∷ state_text e.state))

unfoldable pub share_lines : List ShareEntry → List Text
share_lines [] = codes "no shares held" ∷ []
share_lines (e ∷ es) =
    (codes "KEY_ID" ++ 9 ∷ (codes "EPOCH" ++ 9 ∷ (codes "SEAT" ++ 9 ∷ codes "STATE")))
    ∷ map share_line (e ∷ es)

unfoldable pub int_text : ℤ → Text
int_text (pos n) = decimal n
int_text (negsuc n) = b'-' ∷ decimal (suc n)

-- `map(|s| s.to_string()).unwrap_or_default()`
unfoldable pub int_or_empty : Option ℤ → Text
int_or_empty none = []
int_or_empty (some i) = int_text i

unfoldable pub roster_line : RosterEntry → Text
roster_line r =
    r.identifier
    ++ 9
      ∷ (int_or_empty r.seat_index
          ++ 9
            ∷ (r.npub
                ++ 9 ∷ (r.status ++ 9 ∷ (int_text r.join_epoch ++ 9 ∷ int_or_empty r.leave_epoch))))

unfoldable pub roster_lines : Text → List RosterEntry → List Text
roster_lines key_id [] = (codes "roster empty for key_id=" ++ key_id) ∷ []
roster_lines key_id (r ∷ rs) =
    (codes "IDENTIFIER"
      ++ 9
        ∷ (codes "SEAT"
            ++ 9
              ∷ (codes "NPUB" ++ 9 ∷ (codes "STATUS" ++ 9 ∷ (codes "JOIN" ++ 9 ∷ codes "LEAVE")))))
    ∷ map roster_line (r ∷ rs)

module _ (F : Frost) (S : Signing F) (B : Bitcoin) (D : Disk) (V : Vault) (Terminal : Type 0)
    (sys : System F S B D V Terminal) where
  abbrev pub Act : Type 0 → Type 0
  Act A = M (Machine F D Terminal) StoreError A

  -- `read_manifest` of a root: neither the passphrase nor the draws of the store are used.
  unfoldable pub store_at : FilePath → ParticipantStore V
  store_at root = record {
    root = root;
    vault_salt = (sys.draws 0).salt;
    public_suffix = (sys.draws 0).public_suffix;
    share_suffix = (sys.draws 0).share_suffix;
    manifest_suffix = (sys.draws 0).manifest_suffix;
    now_unix = (sys.draws 0).now;
  }

  unfoldable pub run_share_status : Option FilePath → Act (List Text)
  run_share_status home = do
    root ← lift (resolve_root sys.to_path sys.home_var sys.home_dir home)
    index ← λ w.
        let read = load_manifest sys.bytes D V sys.formats (store_at root) w.disk in
        (read.0, record w { disk = read.1 })
    pure (share_lines index.shares)

  -- The connection is closed when the handler ends.
  module _ (E : Engine) (connect : FilePath → D.State → Result SqlError E.State × D.State) where
    unfoldable pub run_roster : Option FilePath → Text → Act (List Text)
    run_roster home key_id = do
      root ← lift (resolve_root sys.to_path sys.home_var sys.home_dir home)
      conn ← λ w.
          let opened = open_store E D connect (default_db_path root) w.disk in
          (opened.0, record w { disk = opened.1 })
      roster ← lift (list_roster E key_id conn)
      pure (roster_lines key_id roster)
