-- ===== src/Snapshot/Approvals.antt =====
-- src/snapshot/approvals.rs: the ledger of approved differences, in memory and in its file. A file
-- that does not parse and one that cannot be written are errors; the clock and the file's content
-- as a ledger are parameters.
pub mod Lifecycle
use apisnap.Common.{
  String, Bool, true, false, Option, none, some, Dict, lookup, insert, erase, [], if◌then◌else◌,
}

pub record DiffApproval : Type 0 where
  pub endpoint_name : String
  pub approved_by : String
  pub reason : String
  pub approved_at : String

-- `approvals` of an `ApprovalLedger`
abbrev pub ApprovalLedger : Type 0
ApprovalLedger = Dict DiffApproval

-- What the file `.approved_diffs.json` holds.
pub data File : Type 0 where
  absent corrupt : File
  holds : ApprovalLedger → File

-- `none` is the error of a file that does not parse.
abbrev pub load_from_dir : File → Option ApprovalLedger
load_from_dir absent = some []
load_from_dir corrupt = none
load_from_dir (holds approvals) = some approvals

-- How `create_dir_all` and `fs::write` end: an error can leave the file as it was, or torn.
pub data Writing : Type 0 where
  written refused torn : Writing

-- Whether it was written, and the file afterwards.
abbrev pub save : Writing → ApprovalLedger → File → Bool × File
save written approvals file = (true, holds approvals)
save refused approvals file = (false, file)
save torn approvals file = (false, corrupt)

-- The ledger in memory has the approval also where the file cannot be written.
unfoldable pub approve :
    Writing
    → String
    → String
    → String
    → String
    → ApprovalLedger
    → File
    → Bool × ApprovalLedger × File
unfolding insert
approve writing now endpoint_name author reason approvals file =
    let approval : DiffApproval = record {
      endpoint_name = endpoint_name;
      approved_by = author;
      reason = reason;
      approved_at = now;
    } in
    let approvals' = insert endpoint_name approval approvals in
    let (ok, file') = save writing approvals' file in (ok, approvals', file')

unfoldable pub is_approved : String → ApprovalLedger → Bool
is_approved endpoint_name approvals = elim (lookup endpoint_name approvals) [
  | none ↦ false
  | some a ↦ true
]

-- An error of the file is ignored.
unfoldable pub consume_approval :
    Writing → String → ApprovalLedger → File → Option DiffApproval × ApprovalLedger × File
unfolding erase
consume_approval writing endpoint_name approvals file = elim (lookup endpoint_name approvals) [
  | none ↦ (none, approvals, file)
  | some removed ↦
      let approvals' = erase endpoint_name approvals in
      (some removed, approvals', (save writing approvals' file).1)
]
