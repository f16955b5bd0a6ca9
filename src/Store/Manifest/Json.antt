-- ===== src/Store/Manifest/Json.antt =====
-- The schema gate: what was written is read back, and a manifest of another version is refused.
use cheget.Base.{ℕ, ◌≡◌, Option, some, List, ok, err, ◌==◌, if◌then◌else◌, arith}
use cheget.Store.Errors.{schema}
use cheget.Store.Manifest.{Manifest, to_json_bytes, from_json_bytes, current_schema_version}

module _ (to_vec : Manifest → Option (List ℕ)) (from_slice : List ℕ → Option Manifest) where
  -- serde_json reads back what it wrote.
  abbrev pub ReadsBack : Type 0
  ReadsBack = (m : Manifest) (bytes : List ℕ) → to_vec m ≡ some bytes → from_slice bytes ≡ some m

  -- A manifest whose bytes were produced is read back if it has the current version, and one of any
  -- other version is refused with a schema error, where the JSON reader reads back what the JSON
  -- writer wrote.
  pub from_json_bytes-to_json_bytes :
      (m : Manifest) (bytes : List ℕ)
      → ReadsBack
      → to_json_bytes to_vec from_slice m ≡ ok bytes
      → from_json_bytes to_vec from_slice bytes
        ≡ (if m.schema_version == current_schema_version then ok m else err schema)
  unfolding to_json_bytes from_json_bytes
  from_json_bytes-to_json_bytes m bytes back h =
      let r : from_slice bytes ≡ some m = back m bytes (ground arith) in ground arith
