-- ===== src/Logger/Entries.antt =====
-- Every entry is in the queue or in the file, in order, and after the destructor all are in the file.
use unix_ipc_note.Base.{◌≡◌, ◌⊎◌, ◌++◌, append-nil, arith}
use unix_ipc_note.Logger.{gave_up, gone, Logger, log, process, end, Reach, here, next}
use unix_ipc_note.Logger.Invariant.{Inv, start-Inv}
use unix_ipc_note.Logger.LogSteps.{LogStep-Inv}
use unix_ipc_note.Logger.WriteSteps.{WriteStep-Inv}
use unix_ipc_note.Logger.DestroySteps.{DestroyStep-Inv}

pub Reach-Inv : {s : Logger} → Reach s → Inv s
Reach-Inv here = start-Inv
Reach-Inv (next r (log i st)) = LogStep-Inv i st (Reach-Inv r)
Reach-Inv (next r (process st)) = WriteStep-Inv st (Reach-Inv r)
Reach-Inv (next r (end st)) = DestroyStep-Inv st (Reach-Inv r)

-- At any time the entries in the file followed by those in the queue are the entries that were
-- logged, in the order in which they were queued.
pub entries_in_order : {s : Logger} → Reach s → s.written ++ s.queue ≡ s.logged
entries_in_order r = let inv = Reach-Inv r in inv.history

-- When the destructor has returned, every logged entry is in the file, unless the file did not open.
pub gone_complete :
    {s : Logger} → Reach s → s.destroy ≡ gone → (s.write ≡ gave_up) ⊎ (s.written ≡ s.logged)
gone_complete {s} r e =
    let inv = Reach-Inv r in
    ground (arith, inv.destroy_fits, inv.write_fits, inv.history, append-nil s.written)
