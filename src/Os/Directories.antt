-- ===== src/Os/Directories.antt =====
-- smbclient/_os.py: `makedirs`, `removedirs` and `renames`, over the calls that they make.
pub mod Laws
pub mod Makes
pub mod Removes
use smbprotocol.Prelude.{
  ℕ, zero, suc, ◌+◌, ◌*◌, List, [], ◌∷◌, Bool, true, false, not, ◌&&◌, Option, none, some, Result,
  ok, err, Error, smb_os_error, smb_response_exception, os_error, length, if◌then◌else◌,
}
use smbprotocol.Exceptions.{Errno, eexist, enoent}
use smbprotocol.Os.{Location, dirname, path_eq, errno_of}

-- `mkdir`, `rmdir` and `rename` on the server that the world holds.
pub record Share : Type 1 where
  pub World : Type 0
  pub mkdir : World → Location → World × Result (Unit {0})
  pub rmdir : World → Location → World × Result (Unit {0})
  pub rename : World → Location → Location → World × Result (Unit {0})

-- `present_parent == parent_path`
abbrev pub is_present : Option Location → Location → Bool
is_present none path = false
is_present (some present) path = path_eq present path

abbrev pub is_nil {ℓ} : {A : Type ℓ} → List A → Bool
is_nil [] = true
is_nil (x ∷ xs) = false

-- Whether an exception is one of `(SMBResponseException, OSError)`.
abbrev pub is_refusal : Error → Bool
is_refusal (smb_response_exception status) = true
is_refusal (smb_os_error status) = true
is_refusal os_error = true
is_refusal _ = false

module _ (share : Share) where
  open share use {World, mkdir, rmdir, rename}

  -- The world afterwards and how the call ended; `none` where the fuel ran out.
  abbrev pub Ended : Type 0
  Ended = World × Option (Result (Unit {0}))

  -- What `makedirs` does after `mkdir(mkdir_path)`.
  unfoldable pub after_mkdir :
      (World → List Location → Option Location → Ended)
      → Bool
      → Location
      → List Location
      → Option Location
      → World × Result (Unit {0})
      → Ended
  after_mkdir again exist_ok mkdir_path queue present_parent (w, ok _) =
      again w queue present_parent
  after_mkdir again exist_ok mkdir_path queue present_parent (w, err e) = elim (errno_of e) [
    | some eexist ↦
        if is_nil queue && not exist_ok then (w, some (err e)) else again w queue (some mkdir_path)
    | some enoent ↦
        if is_present present_parent (dirname mkdir_path)
        then (w, some (err e))
        else again w (dirname mkdir_path ∷ mkdir_path ∷ queue) present_parent
    | _ ↦ (w, some (err e))
  ]

  -- The loop of `makedirs`; the first of the queue is its last element in the source.
  unfoldable pub makedirs_loop : Bool → ℕ → World → List Location → Option Location → Ended
  unfolding after_mkdir
  makedirs_loop exist_ok zero w queue present_parent = (w, none)
  makedirs_loop exist_ok (suc fuel) w [] present_parent = (w, some (ok tt))
  makedirs_loop exist_ok (suc fuel) w (mkdir_path ∷ queue) present_parent =
      after_mkdir (makedirs_loop exist_ok fuel) exist_ok mkdir_path queue present_parent
        (mkdir w mkdir_path)

  unfoldable pub makedirs : World → Location → Bool → Ended
  unfolding makedirs_loop
  makedirs w path exist_ok = makedirs_loop exist_ok (2 * length path + 2) w (path ∷ []) none

  unfoldable pub after_rmdir :
      (World → Location → Ended) → Location → World × Result (Unit {0}) → Ended
  after_rmdir again remove_dir (w, ok _) = again w (dirname remove_dir)
  after_rmdir again remove_dir (w, err e) = (w, some (if is_refusal e then ok tt else err e))

  unfoldable pub removedirs_loop : ℕ → World → Location → Ended
  unfolding after_rmdir
  removedirs_loop zero w remove_dir = (w, none)
  removedirs_loop (suc fuel) w remove_dir =
      after_rmdir (removedirs_loop fuel) remove_dir (rmdir w remove_dir)

  unfoldable pub removedirs : World → Location → Ended
  unfolding removedirs_loop
  removedirs w name = removedirs_loop (length name + 1) w name

  -- The next statement of `renames`, where the one before returned.
  abbrev pub then_do : (World → Ended) → Ended → Ended
  then_do next (w, some (ok _)) = next w
  then_do next (w, other) = (w, other)

  abbrev ended : World × Result (Unit {0}) → Ended
  ended (w, result) = (w, some result)

  unfoldable pub renames : World → Location → Location → Ended
  unfolding makedirs removedirs
  renames w old new =
      then_do (λ w'. then_do (λ w''. removedirs w'' (dirname old)) (ended (rename w' old new)))
        (makedirs w (dirname new) true)
