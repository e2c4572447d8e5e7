-- ===== src/Tests/KeygenRuns.antt =====
-- The command `keygen` on a disk that is a function from the names of files.
use project_sapphire.Base.{
  ◌≡◌, ◌≢◌, refl, ap, subst, Bool, true, false, Option, none, some, Result, ok, String, eqb, eqb→eq,
  if◌then◌else◌, arith, Bool-cases, inl, inr, nat_ord,
}
use project_sapphire.Core.{new_params}
use project_sapphire.Base.Map.{insert, get, remove}
use project_sapphire.Keygen.Ceremony.{
  generate_with_dkg, deal1, conclude, deal2, deal3, preallocate, others_r1, distribute, agree,
}
use project_sapphire.Cli.Keygen.{
  FileName, share, group_pubkey, Document, bundle, Disk, finished, crashed, write_shares, write_all,
  save, cmd_keygen,
}
use project_sapphire.Cli.Keygen.Stored.{IsReliable, Saved, cmd_keygen-Saved}
use project_sapphire.Tests.Scheme.{scheme, scheme-IsLawful}
use project_sapphire.Tests.CeremonyExamples.{protocol, protocol-IsAddressed, id_of_number}

abbrev same_file : FileName → FileName → Bool
same_file (share i) (share j) = eqb i j
same_file (share i) group_pubkey = false
same_file group_pubkey (share j) = false
same_file group_pubkey group_pubkey = true

eq_of_same_file : (a b : FileName) → same_file a b ≡ true → a ≡ b
eq_of_same_file (share i) (share j) h = ap share (eqb→eq i j h)
eq_of_same_file (share i) group_pubkey h = cc
eq_of_same_file group_pubkey (share j) h = cc
eq_of_same_file group_pubkey group_pubkey h = refl

same_file_self : (a : FileName) → same_file a a ≡ true
same_file_self (share i) = ground arith
same_file_self group_pubkey = refl

abbrev Files : Type 0
Files = FileName → Option (Document scheme)

abbrev put_file : FileName → Document scheme → Files → Files
put_file name document files other = if same_file other name then some document else files other

abbrev disk : Disk scheme
disk = record {
  State = Files;
  create_dir_all = λ files. (ok tt, files);
  create = λ name files. (ok tt, files);
  to_writer_pretty = λ name document files. (ok tt, put_file name document files);
  content = λ name files. files name;
}

put_other :
    (name other : FileName) (document : Document scheme) (files : Files)
    → other ≢ name
    → put_file name document files other ≡ files other
put_other name other document files apart = elim (Bool-cases (same_file other name)) [
  | inl e ↦ absurd (apart (eq_of_same_file other name e))
  | inr e ↦ rw e refl
]

disk-IsReliable : IsReliable disk
disk-IsReliable = record {
  content-write = λ name document files files' h.
      let is_put : put_file name document files ≡ files' =
        ap (λ (p : Result (Unit {0}) String × Files). p.1) h in
      let here : put_file name document files name ≡ some document =
        rw (same_file_self name) refl in
      (
        subst (λ (f : Files). f name ≡ some document) is_put here,
        (λ other apart.
            subst (λ (f : Files). f other ≡ files other) is_put
              (put_other name other document files apart)),
      );
}

abbrev blank : Files
blank _ = none

finished_run : (cmd_keygen protocol disk id_of_number 2 3 5 blank).0 ≡ finished
unfolding cmd_keygen save write_all write_shares new_params generate_with_dkg deal1 conclude deal2
    deal3 preallocate others_r1 distribute agree insert get remove
finished_run = refl

second_share :
    (cmd_keygen protocol disk id_of_number 2 3 5 blank).1 (share 2)
    ≡ some (bundle (record { key_package = 7; public_key_package = 7 }))
unfolding cmd_keygen save write_all write_shares new_params generate_with_dkg deal1 conclude deal2
    deal3 preallocate others_r1 distribute agree insert get remove
second_share = refl

cmd_keygen-Saved_example :
    let (ending, files) = cmd_keygen protocol disk id_of_number 2 3 5 blank in
    (ending ≢ crashed) × (ending ≡ finished → Saved protocol disk id_of_number 2 3 5 files)
cmd_keygen-Saved_example =
    cmd_keygen-Saved protocol disk id_of_number 2 3 5 blank scheme-IsLawful protocol-IsAddressed
      disk-IsReliable
