-- ===== src/Session.antt =====
-- `main` of test/test_mcufpga.cpp: two signals of the system ask for the two sides to be deleted, the
-- client before the host.
use software_on_silicon.Base.{
  ℕ, zero, suc, ◌≡◌, refl, arith, Bool, true, false, not, ◌&&◌, if◌then◌else◌, List, [], ◌∷◌, ◌++◌,
}
use software_on_silicon.Signals.{Flag, test_and_set, cleared, raised}

pub data Side : Type 0 where
  client_side : Side
  host_side : Side

-- Whether the pointers are set, the variables and flags of `main`, and what has been deleted.
pub record Session : Type 0 where
  pub host : Bool
  pub client : Bool
  pub host_delete : Bool
  pub client_delete : Bool
  pub delete_mcu : Flag
  pub delete_fpga : Flag
  pub deleted : List Side

-- At the start of the loop.
unfoldable pub new_session : Session
new_session = record {
  host = true;
  client = true;
  host_delete = false;
  client_delete = false;
  delete_mcu = raised;
  delete_fpga = raised;
  deleted = [];
}

unfoldable pub usr1_handler : Session → Session
usr1_handler s = record s { delete_fpga = cleared }

unfoldable pub usr2_handler : Session → Session
usr2_handler s = record s { delete_mcu = cleared }

unfoldable pub host_thread : Session → Session
host_thread s =
    let (waiting, f) = test_and_set s.delete_mcu in
    if s.host && (not s.host_delete && (not s.client && s.client_delete))
    then (if not waiting
        then record s {
          delete_mcu = f;
          deleted = s.deleted ++ (host_side ∷ []);
          host = false;
          host_delete = true;
        }
        else record s { delete_mcu = f })
    else s

unfoldable pub client_thread : Session → Session
client_thread s =
    let (waiting, f) = test_and_set s.delete_fpga in
    if s.client && not s.client_delete
    then (if not waiting
        then record s {
          delete_fpga = f;
          deleted = s.deleted ++ (client_side ∷ []);
          client = false;
          client_delete = true;
        }
        else record s { delete_fpga = f })
    else s

-- At most `n` rounds of the loop.
unfoldable pub run_session : ℕ → Session → Session
unfolding host_thread client_thread
run_session zero s = s
run_session (suc n) s =
    let rest = run_session n (client_thread (host_thread s)) in if s.host_delete then s else rest

-- After the loop.
unfoldable pub finish_session : Session → Session
finish_session s =
    let t = if s.client then record s { deleted = s.deleted ++ (client_side ∷ []) } else s in
    if t.host then record t { deleted = t.deleted ++ (host_side ∷ []) } else t

-- The signals and the rounds in any order, and which signals have come.
pub data Happens : Bool → Bool → Session → Type 0 where
  begins : Happens false false new_session
  signals_client :
      (usr1 usr2 : Bool) (s : Session) → Happens usr1 usr2 s → Happens true usr2 (usr1_handler s)
  signals_host :
      (usr1 usr2 : Bool) (s : Session) → Happens usr1 usr2 s → Happens usr1 true (usr2_handler s)
  goes_round :
      (usr1 usr2 : Bool) (s : Session) → Happens usr1 usr2 s → Happens usr1 usr2 (run_session 1 s)

-- How far the deletion has come.
data Stage (usr1 usr2 : Bool) (s : Session) : Type 0 where
  both_live :
      s.host ≡ true
      → s.client ≡ true
      → s.host_delete ≡ false
      → s.client_delete ≡ false
      → s.delete_mcu ≡ not usr2
      → s.delete_fpga ≡ not usr1
      → s.deleted ≡ []
      → Stage usr1 usr2 s
  host_lives :
      usr1 ≡ true
      → s.host ≡ true
      → s.client ≡ false
      → s.host_delete ≡ false
      → s.client_delete ≡ true
      → s.delete_mcu ≡ not usr2
      → s.deleted ≡ client_side ∷ []
      → Stage usr1 usr2 s
  none_lives :
      usr1 ≡ true
      → usr2 ≡ true
      → s.host ≡ false
      → s.client ≡ false
      → s.host_delete ≡ true
      → s.deleted ≡ client_side ∷ host_side ∷ []
      → Stage usr1 usr2 s

round-Stage :
    (usr1 usr2 : Bool) (s : Session) → Stage usr1 usr2 s → Stage usr1 usr2 (run_session 1 s)
unfolding run_session host_thread client_thread
round-Stage true usr2 s (both_live h c hd cd m f d) =
    host_lives refl (ground arith) (ground arith) (ground arith) (ground arith) (ground arith)
      (ground arith)
round-Stage false usr2 s (both_live h c hd cd m f d) =
    both_live (ground arith) (ground arith) (ground arith) (ground arith) (ground arith)
      (ground arith) (ground arith)
round-Stage usr1 true s (host_lives u h c hd cd m d) =
    none_lives u refl (ground arith) (ground arith) (ground arith) (ground arith)
round-Stage usr1 false s (host_lives u h c hd cd m d) =
    host_lives u (ground arith) (ground arith) (ground arith) (ground arith) (ground arith)
      (ground arith)
round-Stage usr1 usr2 s (none_lives u v h c hd d) =
    none_lives u v (ground arith) (ground arith) (ground arith) (ground arith)

Happens-Stage : {usr1 usr2 : Bool} {s : Session} → Happens usr1 usr2 s → Stage usr1 usr2 s
unfolding new_session usr1_handler usr2_handler
Happens-Stage begins = both_live refl refl refl refl refl refl refl
Happens-Stage (signals_client usr1 usr2 s r) = elim (Happens-Stage r) [
  | both_live h c hd cd m f d ↦ both_live h c hd cd m refl d
  | host_lives u h c hd cd m d ↦ host_lives refl h c hd cd m d
  | none_lives u v h c hd d ↦ none_lives refl v h c hd d
]
Happens-Stage (signals_host usr1 usr2 s r) = elim (Happens-Stage r) [
  | both_live h c hd cd m f d ↦ both_live h c hd cd refl f d
  | host_lives u h c hd cd m d ↦ host_lives u h c hd cd refl d
  | none_lives u v h c hd d ↦ none_lives u refl h c hd d
]
Happens-Stage (goes_round usr1 usr2 s r) = round-Stage usr1 usr2 s (Happens-Stage r)

Stage-run_session :
    (usr1 usr2 : Bool) (s : Session)
    → Stage usr1 usr2 s
    → (run_session 2 s).host_delete ≡ usr1 && usr2
unfolding run_session host_thread client_thread
Stage-run_session true true s (both_live h c hd cd m f d) = ground arith
Stage-run_session true false s (both_live h c hd cd m f d) = ground arith
Stage-run_session false usr2 s (both_live h c hd cd m f d) = ground arith
Stage-run_session usr1 true s (host_lives u h c hd cd m d) = ground arith
Stage-run_session usr1 false s (host_lives u h c hd cd m d) = ground arith
Stage-run_session usr1 usr2 s (none_lives u v h c hd d) = ground arith

Stage-finish_session :
    (usr1 usr2 : Bool) (s : Session)
    → Stage usr1 usr2 s
    → (finish_session s).deleted ≡ client_side ∷ host_side ∷ []
unfolding finish_session
Stage-finish_session usr1 usr2 s (both_live h c hd cd m f d) = rw (c, h, d) refl
Stage-finish_session usr1 usr2 s (host_lives u h c hd cd m d) = rw (c, h, d) refl
Stage-finish_session usr1 usr2 s (none_lives u v h c hd d) = rw (c, h, d) refl

-- The signals may come in either order and at any time between the rounds of the loop. Two rounds
-- later the loop has ended just if both have come, and the statements after the loop, whenever they
-- are reached, leave both sides deleted, each once and the client before the host.
pub run_session-finish_session :
    {usr1 usr2 : Bool} {s : Session}
    → Happens usr1 usr2 s
    → ((run_session 2 s).host_delete ≡ usr1 && usr2)
      × ((finish_session s).deleted ≡ client_side ∷ host_side ∷ [])
run_session-finish_session {usr1} {usr2} {s} r =
    let stage = Happens-Stage r in
    (Stage-run_session usr1 usr2 s stage, Stage-finish_session usr1 usr2 s stage)
