-- ===== src/Dblayer/Database/Connection.antt =====
-- What Connect leaves behind.
use vs2017code.Base.{◌+◌, ◌≡◌, ◌⊎◌, arith, pos, if◌then◌else◌}
use vs2017code.Dblayer.Platform.{Platform, Login, null, live, freed, Session, ok}
use vs2017code.Dblayer.Database.{connect, minus_one}

-- `Connect` returns 0 with a live handle, or -1 with a handle that is NULL, when `mysql_init` gave
-- none, and else a pointer to the handle that it has just closed.
pub connect_outcome :
    {p : Platform} (login : Login) (s : Session p)
    → (((connect login s).0 ≡ ok (pos 0))
        × ((connect login s).1.handle ≡ live)
        × ((connect login s).1.open_handles ≡ s.open_handles + 1))
      ⊎ (((connect login s).0 ≡ ok minus_one)
          × ((connect login s).1.handle ≡ (if p.init_succeeds s.server then freed else null))
          × ((connect login s).1.open_handles ≡ s.open_handles))
unfolding connect
connect_outcome {p} login s = ground arith
