-- ===== src/Snapshot/Tests.antt =====
-- Records and documents of core/src/snapshot.rs at concrete values.
use lychgate.Prelude.{◌≡◌, refl, [], ◌∷◌, some, ok, err, arith}
use lychgate.Prelude.Text.{bytes, text_compare}
use lychgate.Prelude.TextMap.{keys, insert, put, contains_key}
use lychgate.Clock.{from_secs, duration_since, SystemTime}
use lychgate.Ttl.{Ttl}
use lychgate.Channel.{ssh}
use lychgate.Grant.{opened, renew}
use lychgate.Grant.Parts.{GrantParts, restore}
use lychgate.Registry.{GrantRegistry, new}
use lychgate.Snapshot.{
  HexLower, StateDoc, exceeds_cap, record_of, parts_of, interval, no_pending_fields, positive_span,
  from_parts, restore_all,
}
use lychgate.Snapshot.Records.{record_of-parts_of}
use lychgate.Snapshot.Renewal.{reload, renew-reload}
use lychgate.Snapshot.Load.{AllBounded, from_parts-AllBounded}

-- A codec that keeps the bytes.
abbrev identity : HexLower
identity = record { encode = λ bs. bs; decode = λ t. some t }

abbrev held : GrantParts
held = GrantParts.opened 0 (from_secs 60) (ssh ∷ [])

record_of-parts_of_example : parts_of identity (bytes "a") (record_of identity held) ≡ ok held
record_of-parts_of_example =
    record_of-parts_of identity (λ bs. refl) (bytes "a") held (ground arith, ground arith) tt

abbrev doc : StateDoc
doc = record { version = 4; grants = (bytes "a", record_of identity held) ∷ [] }

abbrev loaded : GrantRegistry
loaded = (bytes "a", opened 0 (from_secs 60) (ssh ∷ [])) ∷ []

from_parts-AllBounded_example : AllBounded loaded × (keys loaded ≡ keys (new (bytes "a" ∷ [])))
unfolding from_parts restore_all restore new insert put contains_key parts_of record_of interval
    no_pending_fields positive_span text_compare duration_since
from_parts-AllBounded_example = from_parts-AllBounded identity (bytes "a" ∷ []) doc loaded refl

-- A grant opened for 24 hours, renewed for 2 after 23.
abbrev day : SystemTime
day = from_secs 86_400

abbrev two_hours : Ttl
two_hours = record { duration = from_secs 7200 }

renew-reload_example :
    reload identity (bytes "a") (renew (opened 0 day (ssh ∷ [])) (from_secs 82_800) two_hours).0
    ≡ some (err (exceeds_cap (bytes "a") 90_000))
unfolding renew
renew-reload_example =
    renew-reload identity (bytes "a") 0 day (from_secs 82_800) (from_secs 90_000) (ssh ∷ [])
      two_hours refl (ground arith)
