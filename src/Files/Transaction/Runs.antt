-- ===== src/Files/Transaction/Runs.antt =====
-- Runs of the compounds: for each result, an input where its conditions hold. The requests are numbers.
use smbprotocol.Prelude.{
  ℕ, ◌≡◌, refl, [], ◌∷◌, true, some, Result, ok, err, smb_response_exception, map, List,
}
use smbprotocol.Header.{smb2_create, smb2_read, smb2_close}
use smbprotocol.Files.Transaction.{
  Action, Attempt, no_target, target, commit, results, smb_os_error, attempt_commit, conclude,
  planned, receive_all, delete_all, delete_at,
}
use smbprotocol.Files.Transaction.Laws.{commit-expected, commit-retried}

abbrev answers_with : ℕ → Result ℕ → Action ℕ ℕ
answers_with command out = record {
  message = record { command = command; fields = [] };
  unpack_func = λ _. out;
}

abbrev test_attempt : Result ℕ → Attempt ℕ ℕ
test_attempt out = record {
  closed = true;
  create_action = answers_with smb2_create out;
  close_action = answers_with smb2_close (ok 3);
  send_compound = map (λ _. 0);
  resolved = no_target;
}

abbrev dfs_attempt : Attempt ℕ ℕ
dfs_attempt = record (test_attempt (err (smb_response_exception 0xC0000034))) {
  resolved = target (answers_with smb2_create (ok 4));
}

abbrev two_reads : List (Action ℕ ℕ)
two_reads = answers_with smb2_read (ok 1) ∷ answers_with smb2_read (ok 2) ∷ []

commit-expected_example :
    commit (test_attempt (ok 0) ∷ []) two_reads ≡ some (two_reads, results (some 1 ∷ some 2 ∷ []))
unfolding planned
commit-expected_example =
    commit-expected (test_attempt (ok 0)) [] two_reads (0 ∷ 0 ∷ 0 ∷ 0 ∷ []) refl refl refl
      (tt, (tt, (tt, (tt, tt))))

commit-retried_example :
    commit (dfs_attempt ∷ test_attempt (ok 0) ∷ []) two_reads
    ≡ commit (test_attempt (ok 0) ∷ []) two_reads
unfolding planned
commit-retried_example =
    commit-retried dfs_attempt (test_attempt (ok 0) ∷ []) two_reads
      (answers_with smb2_create (ok 4)) 0 (0 ∷ 0 ∷ 0 ∷ []) 0xC0000034 refl refl refl refl refl refl
      refl (tt, (tt, (tt, tt)))

-- A failure of the commit's own create is raised.
refused :
    commit (test_attempt (err (smb_response_exception 0xC0000022)) ∷ []) two_reads
    ≡ some (two_reads, smb_os_error 0xC0000022)
unfolding commit attempt_commit conclude planned receive_all delete_all delete_at
refused = refl
