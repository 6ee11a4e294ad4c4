-- ===== src/Serial/WriteHook.antt =====
-- The OUT half of `Serial`'s event loop: `write_hook` with its searches.
use software_on_silicon.Base.{ℕ, zero, suc, ◌+◌, Bool, true, false, not, ◌&&◌, ◌==◌, if◌then◌else◌}
use software_on_silicon.Errors.{Outcome, ok, logic_error, ◌>>=◌}
use software_on_silicon.Errors.Code.{ErrorCode}
use software_on_silicon.Serial.State.{Role, Serial, put_sync}
use software_on_silicon.Serial.Queries.{
  first_unsynced, incoming_shutdown_query, outgoing_sighup_query,
}
use software_on_silicon.Serial.Requests.{
  send_poweron_request, send_comshutdown_request, send_sighup_request, send_transfer_request,
}

unfoldable pub get_first_transfer : Role → Serial → Outcome (Bool × Serial)
unfolding first_unsynced send_transfer_request
get_first_transfer role s =
    let (found, j, y) =
      first_unsynced s.block.sync.descriptors.count 0 s.block.transfer s.block.sync in
    let t = put_sync s y in
    if found
    then (if t.block.read_lock j
        then logic_error ErrorCode.synced_status_has_not_been_overriden_when_readlock_was_acquired
        else send_transfer_request role j (record t {
          waiting_confirmation = j;
          vars = record (t.vars) { acknowledge_requested = true };
        })
          >>= λ u. ok (true, u))
    else ok (false, t)

-- The loop of `getFirstSyncObject`: `n` rounds from id `j` on.
unfoldable pub find_transfer : ℕ → ℕ → Serial → Outcome (Bool × Serial)
find_transfer zero j s = ok (false, s)
find_transfer (suc n) j s =
    let rest = find_transfer n (j + 1) s in
    if s.block.transfer j
    then (if s.block.read_lock j
        then logic_error ErrorCode.found_a_transfer_object_which_is_readlocked
        else if not (s.block.write_origin_pos == 0)
        then logic_error ErrorCode.previous_object_write_has_not_been_completed
        else ok
            (true, record s { block = record (s.block) { send_lock = true; write_origin = j } }))
    else rest

unfoldable pub get_first_sync_object : Serial → Outcome (Bool × Serial)
unfolding find_transfer
get_first_sync_object s = find_transfer s.block.sync.descriptors.count 0 s

-- The four attempts of `write_hook`, each under `if (!send_lock)`. An attempt gives `true` where
-- the function returns, and what it returns.
unfoldable pub try_transfer : Role → Serial → Outcome (Bool × Serial)
unfolding get_first_transfer
try_transfer role s =
    if s.block.send_lock
    then ok (false, s)
    else if s.vars.sent_com_shutdown
    then ok (false, s)
    else get_first_transfer role s

unfoldable pub try_shutdown : Role → Serial → Outcome (Bool × Serial)
unfolding incoming_shutdown_query send_comshutdown_request
try_shutdown role s =
    if s.block.send_lock
    then ok (false, s)
    else (let (asked, t) = incoming_shutdown_query role s in
        if asked && not t.vars.sent_com_shutdown
        then (send_comshutdown_request role t >>= λ u. ok (true, u))
        else ok (false, t))

unfoldable pub try_sync_object : Serial → Outcome (Bool × Serial)
unfolding get_first_sync_object
try_sync_object s = if s.block.send_lock then ok (false, s) else get_first_sync_object s

unfoldable pub try_sighup : Role → Serial → Outcome (Bool × Serial)
unfolding outgoing_sighup_query send_sighup_request
try_sighup role s =
    if s.block.send_lock
    then ok (false, s)
    else if outgoing_sighup_query role s && not s.vars.sent_sighup
    then (send_sighup_request role s >>= λ u. ok (true, u))
    else ok (false, s)

unfoldable pub write_hook : Role → Serial → Outcome (Bool × Serial)
unfolding send_poweron_request try_transfer try_shutdown try_sync_object try_sighup
write_hook role s =
    if s.first_run
    then (send_poweron_request role s >>= λ u. ok (true, u))
    else try_transfer role s >>= λ a.
        if a.0
        then ok a
        else try_shutdown role (a.1) >>= λ b.
            if b.0
            then ok b
            else try_sync_object (b.1) >>= λ c.
                if c.0 then ok (false, c.1) else try_sighup role (c.1)
