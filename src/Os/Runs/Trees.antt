-- ===== src/Os/Runs/Trees.antt =====
-- smbclient/_os.py: directories that are made and removed, walked and listed.
use smbprotocol.Prelude.{
  ℕ, ◌≡◌, ◌≢◌, refl, ap, List, [], ◌∷◌, false, some, Result, ok, err, smb_os_error, if◌then◌else◌,
  Bool-cases, ◌⊎◌, inl, inr,
}
use smbprotocol.Os.{Location, path_eq, dirname}
use smbprotocol.Os.Directories.{Share, makedirs, removedirs, removedirs_loop, after_rmdir}
use smbprotocol.Os.Directories.Laws.{
  Entry, missing, directory, file, is_above, with_directories, path_eq_refl, path_eq_sound,
  MakesDirectories,
}
use smbprotocol.Os.Directories.Makes.{not_above, makedirs-makes}
use smbprotocol.Os.Directories.Removes.{RemovesDirectories, Pruned, removedirs-prunes}

-- A share as its entries: everything stands in a directory.
record Disk : Type 0 where
  entry : Location → Entry
  rooted : entry [] ≡ directory
  nested :
      (name : List ℕ) (parent : Location)
      → entry (name ∷ parent) ≢ missing
      → entry parent ≡ directory

with_directory : (d : Disk) (name : List ℕ) (parent : Location) → d.entry parent ≡ directory → Disk
with_directory d name parent e = record {
  entry = λ q. if path_eq q (name ∷ parent) then directory else d.entry q;
  rooted = d.rooted;
  nested = λ n p h. stands n p h;
}
  where
    own :
        (p : Location)
        → d.entry p ≡ directory
        → (if path_eq p (name ∷ parent) then directory else d.entry p) ≡ directory
    own p h = elim (Bool-cases (path_eq p (name ∷ parent))) [
      | inl same ↦ rw same refl
      | inr other ↦ rw other h
    ]

    stands :
        (n : List ℕ) (p : Location)
        → (if path_eq (n ∷ p) (name ∷ parent) then directory else d.entry (n ∷ p)) ≢ missing
        → (if path_eq p (name ∷ parent) then directory else d.entry p) ≡ directory
    stands n p h = elim (Bool-cases (path_eq (n ∷ p) (name ∷ parent))) [
      | inl same ↦ own p (rw (ap dirname (path_eq_sound (n ∷ p) (name ∷ parent) same)) e)
      | inr other ↦ own p (d.nested n p (rw other at h))
    ]

-- The answer of `mkdir`, of what stands at the path and at its parent.
made :
    (d : Disk) (name : List ℕ) (parent : Location) (own up : Entry)
    → d.entry parent ≡ up
    → Disk × Result (Unit {0})
made d name parent missing directory e = (with_directory d name parent e, ok tt)
made d name parent missing _ e = (d, err (smb_os_error 0xC000003A))
made d name parent _ up e = (d, err (smb_os_error 0xC0000035))

mkdir_on : Disk → Location → Disk × Result (Unit {0})
unfolding made
mkdir_on d [] = (d, err (smb_os_error 0xC0000035))
mkdir_on d (name ∷ parent) = made d name parent (d.entry (name ∷ parent)) (d.entry parent) refl

abbrev disk : Share
disk = record {
  World = Disk;
  mkdir = mkdir_on;
  rmdir = λ d p. (d, err (smb_os_error 0xC0000101));
  rename = λ d p q. (d, ok tt);
}

-- `with_directory` adds one.
made-creates :
    (d : Disk) (name : List ℕ) (parent : Location) (own up : Entry) (e : d.entry parent ≡ up)
    → own ≡ missing
    → up ≡ directory
    → (w' : Disk) × (made d name parent own up e ≡ (w', ok tt))
      × ((q : Location) → w'.entry q ≡ (if path_eq q (name ∷ parent) then directory else d.entry q))
unfolding made with_directory
made-creates d name parent missing directory e h k =
    (with_directory d name parent e, refl, λ q. refl)
made-creates d name parent missing missing e h k = cc
made-creates d name parent missing file e h k = cc
made-creates d name parent directory up e h k = cc
made-creates d name parent file up e h k = cc

made-orphan :
    (d : Disk) (name : List ℕ) (parent : Location) (own up : Entry) (e : d.entry parent ≡ up)
    → own ≡ missing
    → up ≡ missing
    → made d name parent own up e ≡ (d, err (smb_os_error 0xC000003A))
unfolding made
made-orphan d name parent missing missing e h k = refl
made-orphan d name parent missing directory e h k = cc
made-orphan d name parent missing file e h k = cc
made-orphan d name parent directory up e h k = cc
made-orphan d name parent file up e h k = cc

made-collides :
    (d : Disk) (name : List ℕ) (parent : Location) (own up : Entry) (e : d.entry parent ≡ up)
    → own ≢ missing
    → made d name parent own up e ≡ (d, err (smb_os_error 0xC0000035))
unfolding made
made-collides d name parent missing up e h = absurd (h refl)
made-collides d name parent directory up e h = refl
made-collides d name parent file up e h = refl

disk-MakesDirectories : MakesDirectories disk (λ d q. d.entry q)
unfolding mkdir_on
disk-MakesDirectories = record {
  root = λ d. d.rooted;
  nested = λ d name parent h. d.nested name parent h;
  collides = λ d p h. (d, collision d p h, λ q. refl);
  finds_no_path = λ d name parent h k. (d, made-orphan d name parent _ _ refl h k, λ q. refl);
  creates = λ d name parent h k. made-creates d name parent _ _ refl h k;
}
  where
    collision :
        (d : Disk) (p : Location)
        → d.entry p ≢ missing
        → mkdir_on d p ≡ (d, err (smb_os_error 0xC0000035))
    collision d [] h = refl
    collision d (name ∷ parent) h = made-collides d name parent _ _ refl h

-- An empty share.
abbrev bare : Location → Entry
bare [] = directory
bare (name ∷ parent) = missing

bare-nested :
    (name : List ℕ) (parent : Location) → bare (name ∷ parent) ≢ missing → bare parent ≡ directory
bare-nested name parent h = absurd (h refl)

abbrev empty_disk : Disk
empty_disk = record { entry = bare; rooted = refl; nested = bare-nested }

-- `a\b`
abbrev two_deep : Location
two_deep = (98 ∷ []) ∷ (97 ∷ []) ∷ []

not_file : missing ≢ file
not_file h = cc

makedirs-makes_example :
    (w' : Disk) × (makedirs disk empty_disk two_deep false ≡ (w', some (ok tt)))
    × ((q : Location) → w'.entry q ≡ with_directories two_deep bare q)
makedirs-makes_example =
    makedirs-makes disk (λ d q. d.entry q) disk-MakesDirectories empty_disk two_deep false
      (not_file, (not_file, tt))

-- A chain of directories: the world is the innermost.
abbrev in_chain : Location → Location → Entry
in_chain deepest q = if is_above q deepest then directory else missing

abbrev remove_deepest : Location → Location → Location × Result (Unit {0})
remove_deepest [] p = ([], err (smb_os_error 0xC0000101))
remove_deepest (name ∷ parent) p =
    if path_eq p (name ∷ parent)
    then (parent, ok tt)
    else (name ∷ parent, err (smb_os_error 0xC0000101))

abbrev chain : Share
chain = record {
  World = Location;
  mkdir = λ w p. (w, err (smb_os_error 0xC0000035));
  rmdir = remove_deepest;
  rename = λ w p q. (w, ok tt);
}

chain-RemovesDirectories : RemovesDirectories chain in_chain
chain-RemovesDirectories = record {
  root_stays = λ w. stays w;
  removes_or_refuses = λ w p. either w p;
}
  where
    stays :
        (w : Location)
        → (w' : Location) × (status : ℕ) × (remove_deepest w [] ≡ (w', err (smb_os_error status)))
          × ((q : Location) → in_chain w' q ≡ in_chain w q)
    stays [] = ([], 0xC0000101, refl, λ q. refl)
    stays (name ∷ parent) = (name ∷ parent, 0xC0000101, refl, λ q. refl)

    shorter :
        (name : List ℕ) (parent p q : Location)
        → p ≡ name ∷ parent
        → in_chain parent q ≡ (if path_eq q p then missing else in_chain (name ∷ parent) q)
    shorter name parent p q e = elim (Bool-cases (path_eq q (name ∷ parent))) [
      | inl same ↦ rw e (
          rw (path_eq_sound q (name ∷ parent) same)
            (rw (not_above name parent, path_eq_refl (name ∷ parent)) refl))
      | inr other ↦ rw e (rw other refl)
    ]

    either :
        (w p : Location)
        → ((w' : Location) × (remove_deepest w p ≡ (w', ok tt))
            × ((q : Location) → in_chain w' q ≡ (if path_eq q p then missing else in_chain w q)))
          ⊎ ((w' : Location) × (status : ℕ) × (remove_deepest w p ≡ (w', err (smb_os_error status)))
              × ((q : Location) → in_chain w' q ≡ in_chain w q))
    either [] p = inr ([], 0xC0000101, refl, λ q. refl)
    either (name ∷ parent) p = elim (Bool-cases (path_eq p (name ∷ parent))) [
      | inl same ↦ inl (
        parent,
        rw same refl,
        λ q. shorter name parent p q (path_eq_sound p (name ∷ parent) same),
      )
      | inr other ↦ inr (name ∷ parent, 0xC0000101, rw other refl, λ q. refl)
    ]

removedirs-prunes_example :
    (t : Pruned chain in_chain chain-RemovesDirectories two_deep two_deep) × (removedirs chain
        two_deep two_deep
      ≡ (t.last, some (ok tt)))
removedirs-prunes_example =
    removedirs-prunes chain in_chain chain-RemovesDirectories two_deep two_deep

all_removed : removedirs chain two_deep two_deep ≡ ([], some (ok tt))
unfolding removedirs removedirs_loop after_rmdir
all_removed = refl
