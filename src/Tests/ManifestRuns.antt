-- ===== src/Tests/ManifestRuns.antt =====
-- A manifest of two shares; a seat is its one byte.
use cheget.Base.{
  ℕ, ◌≡◌, refl, Option, none, some, List, [], ◌∷◌, codes, arith, ok, err, if◌then◌else◌, ◌==◌,
}
use cheget.Store.Errors.{schema}
use cheget.Store.Manifest.{
  Manifest, ShareEntry, active, retired, new, new_entry, add_entry, seat_hex, entry_matches, lookup,
  current_schema_version, to_json_bytes, from_json_bytes,
}
use cheget.Store.Manifest.Tags.{lookup-add_entry}
use cheget.Store.Manifest.Unique.{UniqueTags, add_entry-UniqueTags}
use cheget.Store.Manifest.Json.{ReadsBack, from_json_bytes-to_json_bytes}

abbrev byte : ℕ → List ℕ
byte n = n ∷ []

abbrev first : ShareEntry
unfolding new_entry
first = new_entry byte (codes "active") 0 1 active 100

-- The same tag in another state.
abbrev retired_first : ShareEntry
unfolding new_entry
retired_first = new_entry byte (codes "active") 0 1 retired 200

abbrev second : ShareEntry
unfolding new_entry
second = new_entry byte (codes "active") 0 2 active 100

unfoldable index : Manifest
index = add_entry second (add_entry first new)

new-UniqueTags : UniqueTags new.shares
unfolding new
new-UniqueTags = tt

index-UniqueTags : UniqueTags index.shares
unfolding index
index-UniqueTags =
    add_entry-UniqueTags second (add_entry first new)
      (add_entry-UniqueTags first new new-UniqueTags)

lookup-add_entry_example : lookup byte (codes "active") 0 1 (add_entry retired_first index) ≡ (
    if entry_matches byte (codes "active") 0 1 retired_first
    then some retired_first
    else lookup byte (codes "active") 0 1 index)
lookup-add_entry_example = lookup-add_entry byte (codes "active") 0 1 retired_first index

other_epoch :
    (codes "active" ≡ codes "active") × (◌≡◌ {A = ℕ} 0 1) × (seat_hex byte 1 ≡ seat_hex byte 1) → ⊥
other_epoch (k, n, s) = omega arith

-- A format that writes the version number only.
abbrev write_version : Manifest → Option (List ℕ)
write_version m = elim m.shares [ [] ↦ some (m.schema_version ∷ []) | _ ∷ _ ↦ none ]

abbrev read_version : List ℕ → Option Manifest
read_version [] = none
read_version (v ∷ rest) = some (record { schema_version = v; shares = [] })

read_written :
    (v : ℕ) (shares : List ShareEntry) (bytes : List ℕ)
    → write_version (record { schema_version = v; shares = shares }) ≡ some bytes
    → read_version bytes ≡ some (record { schema_version = v; shares = shares })
read_written v [] [] h = absurd (ground arith)
read_written v [] (b ∷ bytes) h = ground arith
read_written v (x ∷ xs) bytes h = absurd (ground arith)

versions-ReadBack : ReadsBack write_version read_version
versions-ReadBack m bytes h = read_written m.schema_version m.shares bytes h

abbrev newer : Manifest
newer = record { schema_version = 2; shares = [] }

from_json_bytes-to_json_bytes_example :
    from_json_bytes write_version read_version (2 ∷ [])
    ≡ (if newer.schema_version == current_schema_version then ok newer else err schema)
unfolding to_json_bytes
from_json_bytes-to_json_bytes_example =
    from_json_bytes-to_json_bytes write_version read_version newer (2 ∷ []) versions-ReadBack refl
