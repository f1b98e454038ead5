-- ===== src/Snapshot/Approvals/Lifecycle.antt =====
-- The life of an approval: given, read back by another run, consumed once.
use apisnap.Common.{
  ◌≡◌, ◌≢◌, refl, arith, eq_iff, eq_refl, String, false, some, lookup, insert, erase, lookup-insert,
  lookup-erase,
}
use apisnap.Snapshot.Approvals.{
  DiffApproval, ApprovalLedger, File, holds, written, load_from_dir, approve, is_approved,
  consume_approval,
}

-- An approval that could be written is given to the next run that loads the file: it is consumed
-- there once, with its author, reason and time; afterwards the endpoint is not approved, neither in
-- memory nor for the run that loads the file then; and no other endpoint's approval has changed.
pub approve-consume_approval :
    (now name author reason : String) (approvals : ApprovalLedger) (file : File)
    → (approvals' : ApprovalLedger) × (left : ApprovalLedger) × (load_from_dir
          (approve written now name author reason approvals file).2
        ≡ some approvals')
      × (consume_approval written name approvals' (holds approvals') ≡ (
        some (record {
          endpoint_name = name;
          approved_by = author;
          reason = reason;
          approved_at = now;
        }),
        left,
        holds left,
      ))
      × (is_approved name left ≡ false)
      × ((other : String) → other ≢ name → lookup other left ≡ lookup other approvals)
unfolding approve is_approved consume_approval
approve-consume_approval now name author reason approvals file =
    let given : DiffApproval = record {
      endpoint_name = name;
      approved_by = author;
      reason = reason;
      approved_at = now;
    } in
    let approvals' = insert name given approvals in
    let found : lookup name approvals' ≡ some given =
      ground (arith, lookup-insert name name given approvals, eq_refl name) in
    (
      approvals',
      erase name approvals',
      refl,
      rw (found, consume_approval) refl,
      ground (arith, lookup-erase name name approvals', eq_refl name),
      λ other apart. ground (
        arith,
        lookup-erase name other approvals',
        lookup-insert name other given approvals,
        eq_iff name other,
        apart,
      ),
    )
