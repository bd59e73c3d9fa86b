-- ===== src/Dblayer/Operation/Reconnect.antt =====
-- The check before each statement: what it guarantees while it succeeds, and after it fails.
use vs2017code.Base.{
  ℕ, ◌+◌, ◌^◌, ◌<◌, ◌≡◌, ◌≢◌, ◌⊎◌, refl, arith, Bytes, true, false, if◌then◌else◌,
}
use vs2017code.Dblayer.Platform.{
  Platform, failed, affected, Handle, null, live, freed, Session, ok, thrown, fault,
}
use vs2017code.Dblayer.Database.{ping}
use vs2017code.Dblayer.Database.Connection.{connect_outcome}
use vs2017code.Dblayer.Operation.{reconnect, ensure_connected, run_update}

-- The three ends of a reconnection.
pub reconnect_outcome :
    {p : Platform} (s : Session p)
    → (((reconnect s).0 ≡ ok tt)
        × ((reconnect s).1.handle ≡ live)
        × ((reconnect s).1.open_handles ≡ s.open_handles + 1))
      ⊎ (((reconnect s).0 ≡ thrown)
          × ((reconnect s).1.handle ≡ (if p.init_succeeds s.server then freed else null))
          × ((reconnect s).1.open_handles ≡ s.open_handles))
unfolding reconnect
reconnect_outcome s = ground (arith, connect_outcome (record s.login { client_flag = 0 }) s)

-- The session after the ping of a live handle.
abbrev pinged : {p : Platform} → Session p → Session p
pinged {p} s = record s { server = (p.ping_succeeds s.server).1 }

-- What the check does, by the handle that it finds.
ensure_connected_null :
    {p : Platform} (s : Session p) → s.handle ≡ null → ensure_connected s ≡ reconnect s
unfolding ensure_connected ping
ensure_connected_null s h = ground arith

ensure_connected_live_handle :
    {p : Platform} (s : Session p)
    → s.handle ≡ live
    → ensure_connected s
      ≡ (if (p.ping_succeeds s.server).0 then (ok tt, pinged s) else reconnect (pinged s))
unfolding ensure_connected ping
ensure_connected_live_handle s h = ground arith

pub ensure_connected_freed :
    {p : Platform} (s : Session p) → s.handle ≡ freed → (ensure_connected s).0 ≡ fault
unfolding ensure_connected ping
ensure_connected_freed s h = ground arith

-- When the check before a statement passes, the statement has a live handle.
pub ensure_connected_live :
    {p : Platform} (s : Session p)
    → (ensure_connected s).0 ≡ ok tt
    → (ensure_connected s).1.handle ≡ live
ensure_connected_live {p} s h = ensure_connected_by s.handle refl
  where
    ensure_connected_by : (k : Handle) → s.handle ≡ k → (ensure_connected s).1.handle ≡ live
    ensure_connected_by null e = ground (arith, ensure_connected_null s e, reconnect_outcome s)
    ensure_connected_by live e =
        ground (arith, ensure_connected_live_handle s e, reconnect_outcome (pinged s))
    ensure_connected_by freed e = ground (arith, ensure_connected_freed s e)

-- The check itself is defined behaviour unless the handle dangles.
pub ensure_connected_defined :
    {p : Platform} (s : Session p) → s.handle ≢ freed → (ensure_connected s).0 ≢ fault
ensure_connected_defined {p} s h = ensure_connected_by s.handle refl
  where
    ensure_connected_by : (k : Handle) → s.handle ≡ k → (ensure_connected s).0 ≢ fault
    ensure_connected_by null e = ground (arith, ensure_connected_null s e, reconnect_outcome s)
    ensure_connected_by live e =
        ground (arith, ensure_connected_live_handle s e, reconnect_outcome (pinged s))
    ensure_connected_by freed e = absurd (h e)

-- An update on a session whose handle does not dangle is defined behaviour, whatever the server
-- and the network do: it returns, or it throws the exception of a failed reconnection.
pub run_update_defined :
    {p : Platform} (sql : Bytes) (s : Session p) → s.handle ≢ freed → (run_update sql s).0 ≢ fault
unfolding run_update
run_update_defined sql s h = ground (arith, ensure_connected_defined s h, ensure_connected_live s)

-- After a reconnection that failed although `mysql_init` succeeded, `m_Data` points to the handle
-- that was closed, and the check before the next statement uses it, which is undefined behaviour.
pub reconnect_failure_dangles :
    {p : Platform} (s : Session p)
    → (reconnect s).0 ≡ thrown
    → p.init_succeeds s.server ≡ true
    → (ensure_connected (reconnect s).1).0 ≡ fault
reconnect_failure_dangles s h i =
    ensure_connected_freed (reconnect s).1 (ground (arith, reconnect_outcome s))

-- A check that finds a dead connection and replaces it does not close the old handle: one more
-- handle stays allocated, and only one can be reached.
pub ensure_connected_leaks :
    {p : Platform} (s : Session p)
    → s.handle ≡ live
    → (p.ping_succeeds s.server).0 ≡ false
    → (ensure_connected s).0 ≡ ok tt
    → (ensure_connected s).1.open_handles ≡ s.open_handles + 1
ensure_connected_leaks s e dead h =
    ground (arith, ensure_connected_live_handle s e, reconnect_outcome (pinged s))

-- The check passed, and the server carried the statement out.
pub run_update_success :
    {p : Platform} (sql : Bytes) (s t : Session p) (n : ℕ) (server : p.Server)
    → ensure_connected s ≡ (ok tt, t)
    → p.real_query t.server sql ≡ (affected n, server)
    → n < 2 ^ 31
    → run_update sql s ≡ (ok true, record t { server = server })
unfolding run_update
run_update_success sql s t n server c q h = ground (arith, ensure_connected_live s)

-- The check passed, and the server refused the statement.
pub run_update_refused :
    {p : Platform} (sql : Bytes) (s t : Session p) (server : p.Server)
    → ensure_connected s ≡ (ok tt, t)
    → p.real_query t.server sql ≡ (failed, server)
    → run_update sql s ≡ (ok false, record t { server = server })
unfolding run_update
run_update_refused sql s t server c q = ground (arith, ensure_connected_live s)
