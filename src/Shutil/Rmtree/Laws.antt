-- ===== src/Shutil/Rmtree/Laws.antt =====
-- smbclient/shutil.py: `rmtree` stays within the tree that it is called on.
use smbprotocol.Prelude.{
  ℕ, zero, suc, ◌≡◌, refl, List, [], ◌∷◌, Bool, true, false, Option, none, some, Error, Result, ok,
  err, os_error, Bool-cases, inl, inr, All, if◌then◌else◌,
}
use smbprotocol.Os.{Location, path_eq}
use smbprotocol.Os.Directories.Laws.{is_above, path_eq_refl}
use smbprotocol.Shutil.Rmtree
use smbprotocol.Shutil.Rmtree.{
  asked, directory_link_test, Child, Removals, Handler, is_os_error, raises, goes_on, handle, tried,
  then_do, remove_entry, remove_entries, scan_ended, remove_scanned, unless_link, rmtree,
}

-- What is kept by every call that stays within a tree: asking about a path, listing a directory of the
-- tree that is no link, and removing a path of the tree. A name that is listed is one component of a path,
-- as a file name is documented to be: the path of an entry is that of its directory and one name.
pub record KeptWithin (server : Removals) (root : Location) (Holds : server.World → Type 0)
    : Type 0 where
  pub by_islink : (w : server.World) (p : Location) → Holds w → Holds (server.islink w p).0
  pub by_scandir :
      (w w' : server.World) (p : Location)
      → is_above root p ≡ true
      → server.islink w p ≡ (w', ok false)
      → Holds w'
      → Holds (server.scandir w' p).0
  pub one_component :
      (w : server.World) (p : Location)
      → All (λ (e : Child). (name : List ℕ) × (e.path ≡ name ∷ p)) (server.scandir w p).1
  pub by_rmdir :
      (w : server.World) (p : Location)
      → is_above root p ≡ true
      → Holds w
      → Holds (server.rmdir w p).0
  pub by_remove :
      (w : server.World) (p : Location)
      → is_above root p ≡ true
      → Holds w
      → Holds (server.remove w p).0

pub below :
    (root : Location) (name : List ℕ) (p : Location)
    → is_above root p ≡ true
    → is_above root (name ∷ p) ≡ true
below root name p h = elim (Bool-cases (path_eq root (name ∷ p))) [
  | inl same ↦ rw same refl
  | inr other ↦ rw other h
]

pub above_itself : (p : Location) → is_above p p ≡ true
above_itself [] = refl
above_itself (x ∷ p) = rw (path_eq_refl (x ∷ p)) refl

module _ (server : Removals) (onerror : Handler) (root : Location) (Holds : server.World → Type 0)
    (kept : KeptWithin server root Holds) where
  open server use {World, islink, scandir, rmdir, remove}

  handle-Holds :
      (w : World) (reports : List Location) (p : Location) (e : Error)
      → Holds w
      → Holds (handle server onerror w reports p e).0
  unfolding handle
  handle-Holds w reports p e h = elim (Bool-cases (is_os_error e)) [
    | inr other ↦ rw other h
    | inl os ↦ rw os (either onerror)
  ]
    where
      either :
          (o : Handler)
          → Holds
              (elim o as (λ _. Rmtree.Ended server onerror) [
                | raises ↦ (w, reports, some (err e))
                | goes_on ↦ (w, p ∷ reports, some (ok tt))
              ]).0
      either raises = h
      either goes_on = h

  tried-Holds :
      (reports : List Location) (p : Location) (answer : World × Result (Unit {0}))
      → Holds answer.0
      → Holds (tried server onerror reports p answer).0
  tried-Holds reports p (w, ok _) h = h
  tried-Holds reports p (w, err e) h = handle-Holds w reports p e h

  then_do-Holds :
      (ended : Rmtree.Ended server onerror)
      (next : World → List Location → Rmtree.Ended server onerror)
      → Holds ended.0
      → ((w : World) (reports : List Location) → Holds w → Holds (next w reports).0)
      → Holds (then_do server onerror ended next).0
  then_do-Holds (w, reports, some (ok _)) next h k = k w reports h
  then_do-Holds (w, reports, some (err e)) next h k = h
  then_do-Holds (w, reports, none) next h k = h

  -- What the call on a subdirectory keeps.
  abbrev Keeps : (World → List Location → Location → Rmtree.Ended server onerror) → Type 0
  Keeps f =
      (w : World) (reports : List Location) (p : Location)
      → is_above root p ≡ true
      → Holds w
      → Holds (f w reports p).0

  asked-Holds :
      (w : World) (reports : List Location) (answer : Result Bool)
      (next : Bool → Rmtree.Ended server onerror)
      → Holds w
      → ((b : Bool) → Holds (next b).0)
      → Holds (asked server onerror w reports answer next).0
  asked-Holds w reports (ok b) next h k = k b
  asked-Holds w reports (err e) next h k = h

  remove_entry-Holds :
      (f : World → List Location → Location → Rmtree.Ended server onerror) (w : World)
      (reports : List Location) (e : Child)
      → Keeps f
      → is_above root e.path ≡ true
      → Holds w
      → Holds (remove_entry server onerror f w reports e).0
  unfolding remove_entry
  remove_entry-Holds f w reports e keeps child h =
      asked-Holds w reports (directory_link_test server onerror e) _ h link
    where
      dir :
          (b : Bool)
          → Holds
              (if b
                then f w reports e.path
                else tried server onerror reports e.path (remove w e.path)).0
      dir true = keeps w reports e.path child h
      dir false = tried-Holds reports e.path (remove w e.path) (kept.by_remove w _ child h)

      link :
          (b : Bool)
          → Holds
              (if b
                then tried server onerror reports e.path (rmdir w e.path)
                else asked server onerror w reports e.is_dir (λ d.
                  if d
                  then f w reports e.path
                  else tried server onerror reports e.path (remove w e.path))).0
      link true = tried-Holds reports e.path (rmdir w e.path) (kept.by_rmdir w _ child h)
      link false = asked-Holds w reports e.is_dir _ h dir

  remove_entries-Holds :
      (f : World → List Location → Location → Rmtree.Ended server onerror) (p : Location)
      (entries : List Child) (w : World) (reports : List Location)
      → Keeps f
      → is_above root p ≡ true
      → All (λ (e : Child). (name : List ℕ) × (e.path ≡ name ∷ p)) entries
      → Holds w
      → Holds (remove_entries server onerror f entries w reports).0
  unfolding remove_entries
  remove_entries-Holds f p [] w reports keeps in_tree named h = h
  remove_entries-Holds f p (e ∷ entries) w reports keeps in_tree ((name, path), named) h =
      then_do-Holds (remove_entry server onerror f w reports e)
        (remove_entries server onerror f entries)
        (remove_entry-Holds f w reports e keeps (rw path (below root name p in_tree)) h)
        (λ w' reports' h'. remove_entries-Holds f p entries w' reports' keeps in_tree named h')

  scan_ended-Holds :
      (p : Location) (failure : Option Error) (w : World) (reports : List Location)
      → Holds w
      → Holds (scan_ended server onerror p failure w reports).0
  scan_ended-Holds p none w reports h = h
  scan_ended-Holds p (some e) w reports h = handle-Holds w reports p e h

  remove_scanned-Holds :
      (f : World → List Location → Location → Rmtree.Ended server onerror) (reports : List Location)
      (p : Location) (scanned : World × List Child × Option Error)
      → Keeps f
      → is_above root p ≡ true
      → All (λ (e : Child). (name : List ℕ) × (e.path ≡ name ∷ p)) scanned.1
      → Holds scanned.0
      → Holds (remove_scanned server onerror f reports p scanned).0
  remove_scanned-Holds f reports p (w, entries, failure) keeps in_tree named h =
      then_do-Holds _ _
        (then_do-Holds (remove_entries server onerror f entries w reports)
          (scan_ended server onerror p failure)
          (remove_entries-Holds f p entries w reports keeps in_tree named h)
          (λ w' reports' h'. scan_ended-Holds p failure w' reports' h'))
        (λ w' reports' h'. tried-Holds reports' p (rmdir w' p) (kept.by_rmdir w' p in_tree h'))

  unless_link-Holds :
      (f : World → List Location → Location → Rmtree.Ended server onerror) (before : World)
      (reports : List Location) (p : Location) (answer : World × Result Bool)
      → Keeps f
      → is_above root p ≡ true
      → islink before p ≡ answer
      → Holds answer.0
      → Holds (unless_link server onerror f reports p answer).0
  unless_link-Holds f before reports p (w, err e) keeps in_tree e' h = h
  unless_link-Holds f before reports p (w, ok true) keeps in_tree e' h =
      handle-Holds w reports p os_error h
  unless_link-Holds f before reports p (w, ok false) keeps in_tree e' h =
      remove_scanned-Holds f reports p (scandir w p) keeps in_tree (kept.one_component w p)
        (kept.by_scandir before w p in_tree e' h)

  rmtree-Keeps : (fuel : ℕ) → Keeps (rmtree server onerror fuel)
  unfolding rmtree
  rmtree-Keeps zero w reports p in_tree h = h
  rmtree-Keeps (suc fuel) w reports p in_tree h =
      unless_link-Holds (rmtree server onerror fuel) w reports p (islink w p) (rmtree-Keeps fuel)
        in_tree refl (kept.by_islink w p h)

  -- Where each name that the server lists is one component of a path, `rmtree` removes only paths of the
  -- tree that it is called on, and lists only directories of it that are no links, whatever the server
  -- answers otherwise and whether `rmtree` ends or not: what those calls keep holds afterwards, if it held
  -- before.
  pub rmtree-confined :
      (fuel : ℕ) (w : World) (reports : List Location)
      → Holds w
      → Holds (rmtree server onerror fuel w reports root).0
  rmtree-confined fuel w reports h = rmtree-Keeps fuel w reports root (above_itself root) h
