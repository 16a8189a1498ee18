-- ===== src/Egress/Tests.antt =====
-- The theorem about proxy/src/connection/egress/source.rs at a concrete input.
use ppaass_ai.Base.{some, [], ◌∷◌}
use ppaass_ai.Base.Ascii.{ascii}
use ppaass_ai.Egress.{to_v4, v4, Interface, interface_bind_addrs_from_snapshot}
use ppaass_ai.Egress.Sources.{IsChosen, interface_bind_addrs_from_snapshot-IsChosen}

abbrev wired : Interface
wired = record { name = ascii "en0"; addr = v4 167772167 4278190080; index = some 4 }

interface_bind_addrs_from_snapshot-IsChosen_example :
    IsChosen
      (ascii "en0")
      (to_v4 167772161)
      (wired ∷ [])
      (interface_bind_addrs_from_snapshot (ascii "en0") (to_v4 167772161) (wired ∷ []))
interface_bind_addrs_from_snapshot-IsChosen_example =
    interface_bind_addrs_from_snapshot-IsChosen (ascii "en0") (to_v4 167772161) (wired ∷ [])
