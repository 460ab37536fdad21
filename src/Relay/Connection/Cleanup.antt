-- ===== src/Relay/Connection/Cleanup.antt =====
-- What a `cleanup` leaves behind, and that a second one does nothing.
use public_trash.Base.{◌≡◌, refl, true, [], none}
use public_trash.Relay.Connection.{Connection, cleanup}

-- After `cleanup` the stop flag is set and there is no socket; the counters stay, and a second
-- `cleanup` closes and joins nothing and changes nothing.
cleanup_twice :
    (c : Connection)
    → let d = (cleanup c).1 in
      ((cleanup d).0 ≡ [])
      × ((cleanup d).1 ≡ d)
      × (d.closing ≡ true)
      × (d.sock ≡ none)
      × (d.stats ≡ c.stats)
      × (d.count ≡ c.count)
      × (d.last_received_count ≡ c.last_received_count)
unfolding cleanup
cleanup_twice c = (refl, refl, refl, refl, refl, refl, refl)
